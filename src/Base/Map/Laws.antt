-- ===== src/Base/Map/Laws.antt =====
-- What a write to a map of the store changes: the entry of its key, and the sum over the entries.
use mathlib.Core.Path.{◌≡◌, refl}
use mathlib.Core.Bool.{true}
use mathlib.Core.Option.{Option, none, some}
use mathlib.Core.List.{[], ◌∷◌}
use native.Mathlib.Omega.{arith}
use dollar.Base.Tests.{if◌then◌else◌, Option-cases}
use dollar.Base.Int.{ℤ, pos, ◌+ℤ◌, int_laws}
use dollar.Base.Key.{Key}
use dollar.Base.Map.{Map, lookup, has, replace, place, insert, remove}
use mathlib.Core.Logic.{◌≢◌, inl, inr}

module _ {K : Type 0} ⦃key : Key K⦄ where
  beq_refl : (k : K) → key.beq k k ≡ true
  beq_refl k = (key.beq_iff k k).1 refl

abbrev pub value : {V : Type 0} → (V → ℤ) → Option V → ℤ
value f none = pos 0
value f (some v) = f v

module _ {K V : Type 0} ⦃key : Key K⦄ where
  lookup-replace :
      (k j : K) (v : V) (m : Map K V)
      → lookup k m ≢ none
      → lookup j (replace k v m) ≡ (if key.beq k j then some v else lookup j m)
  unfolding lookup replace
  lookup-replace k j v [] h = absurd (h refl)
  lookup-replace k j v ((i, w) ∷ m) h =
      ground (arith, key.beq_iff i k, key.beq_iff i j, key.beq_iff k j, lookup-replace k j v m)

  pub lookup-place :
      (k j : K) (v : V) (m : Map K V)
      → lookup k m ≡ none
      → lookup j (place k v m) ≡ (if key.beq k j then some v else lookup j m)
  unfolding lookup place
  lookup-place k j v [] h = refl
  lookup-place k j v ((i, w) ∷ m) h =
      ground (arith, key.beq_iff i k, key.beq_iff i j, key.beq_iff k j, lookup-place k j v m)

  pub lookup-insert :
      (k j : K) (v : V) (m : Map K V)
      → lookup j (insert k v m) ≡ (if key.beq k j then some v else lookup j m)
  unfolding insert
  lookup-insert k j v m = elim (Option-cases (lookup k m)) [
    | inl e ↦ rw (e, has) (lookup-place k j v m e)
    | inr (w, e) ↦ rw (e, has) (lookup-replace k j v m (λ n. cc))
  ]

  pub lookup-insert_self : (k : K) (v : V) (m : Map K V) → lookup k (insert k v m) ≡ some v
  lookup-insert_self k v m = rw (lookup-insert, beq_refl)

  pub has-some : (k : K) (v : V) (m : Map K V) → lookup k m ≡ some v → has k m ≡ true
  unfolding has
  has-some k v m e = rw (e, has) refl

  pub lookup-insert_ne :
      (k j : K) (v : V) (m : Map K V) → k ≢ j → lookup j (insert k v m) ≡ lookup j m
  lookup-insert_ne k j v m ne = ground (arith, lookup-insert k j v m, key.beq_iff k j)

  pub lookup-remove_ne : (k j : K) (m : Map K V) → k ≢ j → lookup j (remove k m) ≡ lookup j m
  unfolding lookup remove
  lookup-remove_ne k j [] ne = refl
  lookup-remove_ne k j ((i, w) ∷ m) ne =
      ground (arith, key.beq_iff i k, key.beq_iff i j, lookup-remove_ne k j m ne)

  -- The sum of a number over the entries.
  unfoldable pub weigh : (K → V → ℤ) → Map K V → ℤ
  weigh f [] = pos 0
  weigh f ((k, v) ∷ m) = f k v +ℤ weigh f m

  weigh-replace :
      (f : K → V → ℤ) (k : K) (v : V) (m : Map K V)
      → lookup k m ≢ none
      → weigh f (replace k v m) +ℤ value (f k) (lookup k m) ≡ weigh f m +ℤ f k v
  unfolding lookup replace weigh
  weigh-replace f k v [] h = absurd (h refl)
  weigh-replace f k v ((i, w) ∷ m) h = grind (int_laws, key.beq_iff i k, weigh-replace f k v m)

  weigh-place :
      (f : K → V → ℤ) (k : K) (v : V) (m : Map K V) → weigh f (place k v m) ≡ weigh f m +ℤ f k v
  unfolding place weigh
  weigh-place f k v [] = omega int_laws
  weigh-place f k v ((i, w) ∷ m) = grind (int_laws, weigh-place f k v m)

  -- The new sum is the old one, with the old value of the key replaced by the new one.
  pub weigh-insert :
      (f : K → V → ℤ) (k : K) (v : V) (m : Map K V)
      → weigh f (insert k v m) +ℤ value (f k) (lookup k m) ≡ weigh f m +ℤ f k v
  unfolding insert
  weigh-insert f k v m = elim (Option-cases (lookup k m)) [
    | inl e ↦ rw (e, has) (grind (int_laws, weigh-place f k v m))
    | inr (w, e) ↦ rw (e, has) (rw e at (weigh-replace f k v m (λ n. cc)))
  ]

  pub weigh-remove :
      (f : K → V → ℤ) (k : K) (m : Map K V)
      → weigh f (remove k m) +ℤ value (f k) (lookup k m) ≡ weigh f m
  unfolding lookup remove weigh
  weigh-remove f k [] = omega int_laws
  weigh-remove f k ((i, w) ∷ m) = grind (int_laws, key.beq_iff i k, weigh-remove f k m)

  -- The sum of a number that does not depend on the key.
  unfoldable pub sum : (V → ℤ) → Map K V → ℤ
  unfolding weigh
  sum f = weigh (λ k v. f v)

  pub sum-insert :
      (f : V → ℤ) (k : K) (v : V) (m : Map K V)
      → sum f (insert k v m) +ℤ value f (lookup k m) ≡ sum f m +ℤ f v
  unfolding sum
  sum-insert f = weigh-insert (λ k v. f v)

  pub sum-remove :
      (f : V → ℤ) (k : K) (m : Map K V) → sum f (remove k m) +ℤ value f (lookup k m) ≡ sum f m
  unfolding sum
  sum-remove f = weigh-remove (λ k v. f v)
