-- ===== src/Base/Map/Entries.antt =====
-- The entries of a map, as members of its list.
use mathlib.Core.Path.{◌≡◌}
use mathlib.Core.Logic.{◌⊎◌, inl, inr}
use mathlib.Core.Option.{none, some}
use mathlib.Core.List.{[], ◌∷◌, Memᴰ}
use mathlib.Core.List.Memᴰ.{head, tail, cases_cons}
use native.Mathlib.Omega.{arith}
use dollar.Base.Tests.{Bool-cases}
use dollar.Base.Key.{Key}
use dollar.Base.Map.{Map, lookup, has, replace, place, insert}

module _ {K V : Type 0} ⦃key : Key K⦄ where
  -- No key stands twice.
  abbrev pub Distinct : Map K V → Type 0
  Distinct [] = Unit {0}
  Distinct ((k, v) ∷ m) = (lookup k m ≡ none) × Distinct m

  pub lookup-Memᴰ : (k : K) (v : V) (m : Map K V) → lookup k m ≡ some v → Memᴰ (k, v) m
  unfolding lookup
  lookup-Memᴰ k v [] e = cc
  lookup-Memᴰ k v ((j, w) ∷ m) e = elim (Bool-cases (key.beq j k)) [
    | inl c ↦ head (ground (arith, key.beq_iff j k))
    | inr c ↦ tail (lookup-Memᴰ k v m (rw c at e))
  ]

  below : {e e' x : K × V} {m : Map K V} → (e ≡ e') ⊎ Memᴰ e m → (e ≡ e') ⊎ Memᴰ e (x ∷ m)
  below (inl p) = inl p
  below (inr t) = inr (tail t)

  replace-Memᴰ :
      (k : K) (v : V) (e : K × V) (m : Map K V) → Memᴰ e (replace k v m) → (e ≡ (k, v)) ⊎ Memᴰ e m
  unfolding replace
  replace-Memᴰ k v e [] h = elim h [ ]
  replace-Memᴰ k v e ((j, w) ∷ m) h = elim (Bool-cases (key.beq j k)) [
    | inl c ↦ elim (cases_cons (rw c at h)) [ inl p ↦ inl p | inr t ↦ inr (tail t) ]
    | inr c ↦ elim (cases_cons (rw c at h)) [
      | inl p ↦ inr (head p)
      | inr t ↦ below (replace-Memᴰ k v e m t)
    ]
  ]

  place-Memᴰ :
      (k : K) (v : V) (e : K × V) (m : Map K V) → Memᴰ e (place k v m) → (e ≡ (k, v)) ⊎ Memᴰ e m
  unfolding place
  place-Memᴰ k v e [] (head p) = inl p
  place-Memᴰ k v e [] (tail h) = elim h [ ]
  place-Memᴰ k v e ((j, w) ∷ m) h = elim (Bool-cases (key.lt k j)) [
    | inl c ↦ cases_cons (rw c at h)
    | inr c ↦ elim (cases_cons (rw c at h)) [
      | inl p ↦ inr (head p)
      | inr t ↦ below (place-Memᴰ k v e m t)
    ]
  ]

  -- An entry after a write is the one that is written, or was there.
  pub insert-Memᴰ :
      (k : K) (v : V) (e : K × V) (m : Map K V) → Memᴰ e (insert k v m) → (e ≡ (k, v)) ⊎ Memᴰ e m
  unfolding insert
  insert-Memᴰ k v e m h = elim (Bool-cases (has k m)) [
    | inl c ↦ replace-Memᴰ k v e m (rw c at h)
    | inr c ↦ place-Memᴰ k v e m (rw c at h)
  ]
