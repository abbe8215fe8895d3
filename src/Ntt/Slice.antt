-- ===== src/Ntt/Slice.antt =====
-- Go's slice expression `bz[lo:hi]`, and what it reads from concatenated fields.
use dollar.Base.{
  ℕ, ◌+◌, ◌-◌, ◌≤◌, ◌≡◌, ap, sym, ◌∙◌, [], arith, ◌&&◌, ◌++◌, leb, if◌then◌else◌, length, take,
  drop, length-append, take-append, drop-append_add, drop_zero, drop-add, length-drop,
}
use dollar.Base.Bytes.{Bytes}
use mathlib.Core.List.{append-nil}
use dollar.Types.{Result, ok, panic}

-- Out of range it panics.
unfoldable pub slice : Bytes → ℕ → ℕ → Result Bytes
slice bz lo hi = if leb lo hi && leb hi (length bz) then ok (take (hi - lo) (drop lo bz)) else panic

pub slice-append_skip :
    (xs ys : Bytes) (n lo hi : ℕ)
    → length xs ≡ n
    → slice (xs ++ ys) (n + lo) (n + hi) ≡ slice ys lo hi
unfolding slice
slice-append_skip xs ys n lo hi h =
    ground (arith, length-append xs ys, drop-append_add xs ys n lo h)

pub slice-append_take : (xs ys : Bytes) (n : ℕ) → length xs ≡ n → slice (xs ++ ys) 0 n ≡ ok xs
unfolding slice
slice-append_take xs ys n h =
    grind (arith, length-append xs ys, drop_zero (xs ++ ys), take-append xs ys n h)

-- `rest` is what stands in `bz` from the offset `a` on.
pub record At (bz : Bytes) (a : ℕ) (rest : Bytes) : Type 0 where
  pub within : a ≤ length bz
  pub from : drop a bz ≡ rest

pub At-zero : (bz : Bytes) → At bz 0 bz
At-zero bz = record { within = omega arith; from = drop_zero bz }

-- A field is read where it stands, and the next one stands behind it.
add-sub : (a n : ℕ) → a + n - a ≡ n
add-sub a n = omega arith

module _ (bz : Bytes) (a n : ℕ) (f rest : Bytes) (at : At bz a (f ++ rest))
    (len : length f ≡ n) where
  pub length-At : a + n + length rest ≡ length bz
  length-At = omega (arith, at.within, ap length at.from, length-drop a bz, length-append f rest)

  pub take-At : take n (drop a bz) ≡ f
  take-At = rw at.from (take-append f rest n len)

  pub slice-At : slice bz a (a + n) ≡ ok f
  unfolding slice
  slice-At = ground (arith, take-At, length-At, add-sub a n)

  pub At-next : At bz (a + n) rest
  At-next = record { within = omega (arith, length-At); from = drop-add a n bz f rest at.from len }

pub slice-At_last :
    (bz : Bytes) (a n : ℕ) (f : Bytes) → At bz a f → length f ≡ n → slice bz a (a + n) ≡ ok f
slice-At_last bz a n f at len =
    slice-At bz a n f [] (record { within = at.within; from = at.from ∙ sym (append-nil f) }) len
