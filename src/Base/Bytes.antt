-- ===== src/Base/Bytes.antt =====
-- Byte slices and strings as lists of numbers, and the big-endian words of `encoding/binary`.
use Prim.Native.Nat.{ℕ, ◌+◌, ◌*◌, ◌/◌, ◌%◌, ◌^◌, ◌<◌}
use Prim.Native.Char.{code}
use Prim.Native.String.{String}
use mathlib.Core.Path.{◌≡◌, refl}
use mathlib.Core.Logic.{◌↔◌}
use mathlib.Core.Bool.{Bool, true, false, ◌&&◌}
use mathlib.Core.List.{List, [], ◌∷◌, ◌++◌}
use native.Mathlib.Omega.{arith}
use dollar.Base.Tests.{ltb, ◌==◌, if◌then◌else◌}
use dollar.Base.Lists.{length}

abbrev pub Bytes : Type 0
Bytes = List ℕ

-- `bytes.Equal`, and `==` on strings.
unfoldable pub bytes_eq : Bytes → Bytes → Bool
bytes_eq [] [] = true
bytes_eq [] (y ∷ ys) = false
bytes_eq (x ∷ xs) [] = false
bytes_eq (x ∷ xs) (y ∷ ys) = (x == y) && bytes_eq xs ys

pub bytes_eq_iff : (a b : Bytes) → (bytes_eq a b ≡ true) ↔ (a ≡ b)
unfolding bytes_eq
bytes_eq_iff [] [] = ground arith
bytes_eq_iff [] (y ∷ ys) = ground arith
bytes_eq_iff (x ∷ xs) [] = ground arith
bytes_eq_iff (x ∷ xs) (y ∷ ys) = ground (arith, bytes_eq_iff xs ys)

pub bytes_eq_refl : (a : Bytes) → bytes_eq a a ≡ true
bytes_eq_refl a = (bytes_eq_iff a a).1 refl

-- The order of Go's strings.
unfoldable pub bytes_lt : Bytes → Bytes → Bool
bytes_lt xs [] = false
bytes_lt [] (y ∷ ys) = true
bytes_lt (x ∷ xs) (y ∷ ys) = let rest = bytes_lt xs ys in if x == y then rest else ltb x y

-- The bytes of an ASCII text.
abbrev pub codes : String → Bytes
codes String.[] = []
codes (String.◌∷◌ c s) = code c ∷ codes s

abbrev pub IsU16 : ℕ → Type 0
IsU16 n = n < 2 ^ 16

abbrev pub IsU64 : ℕ → Type 0
IsU64 n = n < 2 ^ 64

-- `binary.BigEndian.AppendUint16`, `PutUint32` and `AppendUint64` of a word in range.
unfoldable pub put_uint16 : ℕ → Bytes
put_uint16 n = (n / 2 ^ 8 % 256) ∷ (n % 256) ∷ []

unfoldable pub put_uint32 : ℕ → Bytes
put_uint32 n = (n / 2 ^ 24 % 256) ∷ (n / 2 ^ 16 % 256) ∷ (n / 2 ^ 8 % 256) ∷ (n % 256) ∷ []

unfoldable pub put_uint64 : ℕ → Bytes
unfolding put_uint32
put_uint64 n = put_uint32 (n / 2 ^ 32) ++ put_uint32 n

-- The value of big-endian bytes.
unfoldable pub be_value : ℕ → Bytes → ℕ
be_value acc [] = acc
be_value acc (b ∷ bs) = be_value (acc * 256 + b) bs

-- `binary.BigEndian.Uint16` and `Uint64` of a slice of the right length.
unfoldable pub uint_be : Bytes → ℕ
unfolding be_value
uint_be = be_value 0

pub uint_be-put_uint16 : (n : ℕ) → IsU16 n → uint_be (put_uint16 n) ≡ n
unfolding uint_be put_uint16
uint_be-put_uint16 n h = omega arith

pub uint_be-put_uint32 : (n : ℕ) → n < 2 ^ 32 → uint_be (put_uint32 n) ≡ n
unfolding uint_be put_uint32
uint_be-put_uint32 n h = omega arith

pub uint_be-put_uint64 : (n : ℕ) → IsU64 n → uint_be (put_uint64 n) ≡ n
unfolding uint_be put_uint64
uint_be-put_uint64 n h = omega arith

pub length-put_uint16 : (n : ℕ) → length (put_uint16 n) ≡ 2
unfolding put_uint16
length-put_uint16 n = refl

pub length-put_uint32 : (n : ℕ) → length (put_uint32 n) ≡ 4
unfolding put_uint32
length-put_uint32 n = refl

pub length-put_uint64 : (n : ℕ) → length (put_uint64 n) ≡ 8
unfolding put_uint64
length-put_uint64 n = refl
