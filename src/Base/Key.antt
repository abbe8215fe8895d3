-- ===== src/Base/Key.antt =====
-- Keys of the store's maps: an equality test that decides equality, and the order of iteration.
use Prim.Native.Nat.{ℕ}
use mathlib.Core.Path.{◌≡◌}
use mathlib.Core.Logic.{◌↔◌}
use mathlib.Core.Bool.{Bool, true, ◌&&◌, ◌||◌}
use native.Mathlib.Omega.{arith}
use dollar.Base.Tests.{ltb, ◌==◌, ==_iff}
use dollar.Base.Lists.{length}
use dollar.Base.Int.{ℤ, eqb_ℤ, ltb_ℤ, eqb_ℤ_iff}
use dollar.Base.Bytes.{Bytes, bytes_eq, bytes_eq_iff, bytes_lt}

pub record Key (K : Type 0) : Type 0 where
  pub beq : K → K → Bool
  pub beq_iff : (a b : K) → (beq a b ≡ true) ↔ (a ≡ b)
  pub lt : K → K → Bool
  -- the order where another part of the key follows
  pub lt_in_front : K → K → Bool

instance abbrev pub nat_key : Key ℕ
nat_key = record { beq = λ a b. a == b; beq_iff = ==_iff; lt = ltb; lt_in_front = ltb }

instance abbrev pub int_key : Key ℤ
int_key = record { beq = eqb_ℤ; beq_iff = eqb_ℤ_iff; lt = ltb_ℤ; lt_in_front = ltb_ℤ }

-- Bytes in front of another part have their length before them, in one byte up to 127.
abbrev prefixed_lt : Bytes → Bytes → Bool
prefixed_lt a b = ltb (length a) (length b) || (length a == length b && bytes_lt a b)

instance abbrev pub bytes_key : Key Bytes
bytes_key = record {
  beq = bytes_eq;
  beq_iff = bytes_eq_iff;
  lt = bytes_lt;
  lt_in_front = prefixed_lt;
}

module _ {A B : Type 0} ⦃a : Key A⦄ ⦃b : Key B⦄ where
  abbrev pub pair_beq : A × B → A × B → Bool
  pair_beq (x, y) (x', y') = a.beq x x' && b.beq y y'

  pub pair_beq_iff : (p q : A × B) → (pair_beq p q ≡ true) ↔ (p ≡ q)
  pair_beq_iff (x, y) (x', y') = ground (arith, a.beq_iff x x', b.beq_iff y y')

  instance abbrev pub pair_key : Key (A × B)
  pair_key = record {
    beq = pair_beq;
    beq_iff = pair_beq_iff;
    lt = λ p q. a.lt_in_front p.0 q.0 || (a.beq p.0 q.0 && b.lt p.1 q.1);
    lt_in_front = λ p q. a.lt_in_front p.0 q.0 || (a.beq p.0 q.0 && b.lt_in_front p.1 q.1);
  }
