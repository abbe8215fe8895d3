-- ===== src/Base/Map/Unique.antt =====
-- Maps in which no key stands twice, under writes and removals.
use mathlib.Core.Path.{◌≡◌, refl}
use mathlib.Core.Bool.{false}
use mathlib.Core.Option.{none, some}
use mathlib.Core.List.{[], ◌∷◌}
use mathlib.Core.Logic.{◌≢◌, ◌⊎◌, inl, inr}
use native.Mathlib.Omega.{arith}
use dollar.Base.Tests.{Bool-cases}
use dollar.Base.Key.{Key}
use dollar.Base.Map.{Map, lookup, has, replace, place, insert, remove}
use dollar.Base.Map.Entries.{Distinct}
use dollar.Base.Map.Laws.{lookup-insert, lookup-insert_ne, lookup-place, lookup-remove_ne}

module _ {K V : Type 0} ⦃key : Key K⦄ where
  pub lookup-remove_self : (k : K) (m : Map K V) → Distinct m → lookup k (remove k m) ≡ none
  unfolding lookup remove
  lookup-remove_self k [] d = refl
  lookup-remove_self k ((j, v) ∷ m) (n, d) =
      ground (arith, key.beq_iff j k, lookup-remove_self k m d)

  lookup-replace-none :
      (j k : K) (v : V) (m : Map K V)
      → key.beq k j ≡ false
      → lookup j m ≡ none
      → lookup j (replace k v m) ≡ none
  unfolding lookup replace
  lookup-replace-none j k v [] c e = refl
  lookup-replace-none j k v ((i, w) ∷ m) c e = ground (arith, lookup-replace-none j k v m c)

  replace-Distinct : (k : K) (v : V) (m : Map K V) → Distinct m → Distinct (replace k v m)
  unfolding replace
  replace-Distinct k v [] d = tt
  replace-Distinct k v ((j, w) ∷ m) (n, d) = elim (Bool-cases (key.beq j k)) [
    | inl c ↦ rw c (ground (arith, key.beq_iff j k), d)
    | inr c ↦ rw c (
      lookup-replace-none j k v m (ground (arith, key.beq_iff j k, key.beq_iff k j)) n,
      replace-Distinct k v m d,
    )
  ]

  place-Distinct :
      (k : K) (v : V) (m : Map K V) → lookup k m ≡ none → Distinct m → Distinct (place k v m)
  unfolding place lookup
  place-Distinct k v [] e d = (refl, tt)
  place-Distinct k v ((j, w) ∷ m) e (n, d) = elim (Bool-cases (key.lt k j)) [
    | inl c ↦ rw c (e, (n, d))
    | inr c ↦ rw c (
      ground (arith, lookup-place k j v m, key.beq_iff j k, key.beq_iff k j),
      place-Distinct k v m (ground arith) d,
    )
  ]

  pub insert-Distinct : (k : K) (v : V) (m : Map K V) → Distinct m → Distinct (insert k v m)
  unfolding insert has
  insert-Distinct k v m d = elim (Bool-cases (has k m)) [
    | inl c ↦ rw c (replace-Distinct k v m d)
    | inr c ↦ rw c (place-Distinct k v m (ground arith) d)
  ]

  pub remove-Distinct : (k : K) (m : Map K V) → Distinct m → Distinct (remove k m)
  unfolding remove
  remove-Distinct k [] d = tt
  remove-Distinct k ((j, w) ∷ m) (n, d) = elim (Bool-cases (key.beq j k)) [
    | inl c ↦ rw c d
    | inr c ↦ rw c (ground (arith, lookup-remove_ne k j m, key.beq_iff j k), remove-Distinct k m d)
  ]

  -- What is found after a removal was there before.
  pub lookup-remove-some :
      (k j : K) (v : V) (m : Map K V)
      → Distinct m
      → lookup j (remove k m) ≡ some v
      → (k ≢ j) × (lookup j m ≡ some v)
  lookup-remove-some k j v m d e = elim (Bool-cases (key.beq k j)) [
    | inl c ↦ let same : k ≡ j = (key.beq_iff k j).0 c in cc (lookup-remove_self k m d, same)
    | inr c ↦
        let ne : k ≢ j = λ same. cc ((key.beq_iff k j).1 same) in
        (ne, ground (arith, lookup-remove_ne k j m ne))
  ]

  -- What is found after a write was written, or was there before under another key.
  pub lookup-insert-some :
      (k j : K) (v u : V) (m : Map K V)
      → lookup j (insert k v m) ≡ some u
      → ((k ≡ j) × (v ≡ u)) ⊎ ((k ≢ j) × (lookup j m ≡ some u))
  lookup-insert-some k j v u m e = elim (Bool-cases (key.beq k j)) [
    | inl c ↦ inl ((key.beq_iff k j).0 c, ground (arith, lookup-insert k j v m))
    | inr c ↦
        let ne : k ≢ j = λ same. cc ((key.beq_iff k j).1 same) in
        inr (ne, ground (arith, lookup-insert_ne k j v m ne))
  ]

  pub lookup-cons_self : (k : K) (v : V) (m : Map K V) → lookup k ((k, v) ∷ m) ≡ some v
  unfolding lookup
  lookup-cons_self k v m = rw ((key.beq_iff k k).1 refl) refl

  lookup-cons_ne : (k j : K) (v : V) (m : Map K V) → k ≢ j → lookup j ((k, v) ∷ m) ≡ lookup j m
  unfolding lookup
  lookup-cons_ne k j v m ne = ground (arith, key.beq_iff k j)

  -- What stands behind an entry of another key is found.
  pub lookup-cons-some :
      (k j : K) (v u : V) (m : Map K V)
      → lookup k m ≡ none
      → lookup j m ≡ some u
      → (k ≢ j) × (lookup j ((k, v) ∷ m) ≡ some u)
  lookup-cons-some k j v u m n e =
      let ne : k ≢ j = λ same. cc in (ne, rw (lookup-cons_ne k j v m ne) e)
