-- ===== src/Genesis/Collect.antt =====
-- The Go maps that the listings of the keeper build (keeper/state.go), entry by entry.
use dollar.Base.{◌≡◌, ◌≢◌, ◌⊎◌, refl, none, some, [], ◌∷◌, arith, inl, inr, Bool-cases, ◌∙◌}
use mathlib.Core.List.{Memᴰ}
use dollar.Base.Key.{Key}
use dollar.Base.Map.{Map, lookup, insert}
use dollar.Base.Map.Laws.{lookup-insert_self, lookup-insert_ne}
use dollar.Base.Map.Entries.{Distinct, insert-Memᴰ, lookup-Memᴰ}
use dollar.State.Listing.{collect}

module _ {K V : Type 0} ⦃key : Key K⦄ where
  -- An entry of the rest is not hidden by the first one.
  pub lookup-cons_rest :
      (k j : K) (v w : V) (m : Map K V)
      → lookup k m ≡ none
      → lookup j m ≡ some w
      → lookup j ((k, v) ∷ m) ≡ some w
  unfolding lookup
  lookup-cons_rest k j v w m n e = ground (arith, key.beq_iff k j)

  pub lookup-cons_self : (k : K) (v : V) (m : Map K V) → lookup k ((k, v) ∷ m) ≡ some v
  unfolding lookup
  lookup-cons_self k v m = ground (arith, key.beq_iff k k)

module _ {K V S T : Type 0} ⦃key : Key K⦄ ⦃text : Key S⦄ (name : K → S) (print : V → T) where
  -- Names of different keys of the map differ.
  abbrev pub Names : Map K V → Type 0
  Names m =
      (k j : K) (v w : V) → lookup k m ≡ some v → lookup j m ≡ some w → name k ≡ name j → k ≡ j

  Names-rest : (k : K) (v : V) (m : Map K V) → lookup k m ≡ none → Names ((k, v) ∷ m) → Names m
  Names-rest k v m n h i j w x e f =
      h i j w x (lookup-cons_rest k i v w m n e) (lookup-cons_rest k j v x m n f)

  -- Each entry of the listing is one of the map, or was there.
  pub collect_sound :
      (e : S × T) (m : Map K V) (acc : Map S T)
      → Distinct m
      → Memᴰ e (collect name print m acc)
      → Memᴰ e acc ⊎ ((k : K) × (v : V) × (lookup k m ≡ some v) × (e ≡ (name k, print v)))
  unfolding collect
  collect_sound e [] acc d h = inl h
  collect_sound e ((k, v) ∷ m) acc (n, d) h =
      elim (collect_sound e m (insert (name k) (print v) acc) d h) [
        | inl i ↦ elim (insert-Memᴰ (name k) (print v) e acc i) [
          | inl p ↦ inr (k, v, lookup-cons_self k v m, p)
          | inr o ↦ inl o
        ]
        | inr (j, w, l, p) ↦ inr (j, w, lookup-cons_rest k j v w m n l, p)
      ]

  collect_keeps :
      (s : S) (m : Map K V) (acc : Map S T)
      → Distinct m
      → ((k : K) (v : V) → lookup k m ≡ some v → name k ≢ s)
      → lookup s (collect name print m acc) ≡ lookup s acc
  unfolding collect
  collect_keeps s [] acc d h = refl
  collect_keeps s ((k, v) ∷ m) acc (n, d) h =
      collect_keeps s m (insert (name k) (print v) acc) d
        (λ j w l. h j w (lookup-cons_rest k j v w m n l))
      ∙ lookup-insert_ne (name k) s (print v) acc (h k v (lookup-cons_self k v m))

  -- Each entry of the map is in the listing.
  collect-lookup :
      (k : K) (v : V) (m : Map K V) (acc : Map S T)
      → Distinct m
      → Names m
      → lookup k m ≡ some v
      → lookup (name k) (collect name print m acc) ≡ some (print v)
  unfolding collect lookup
  collect-lookup k v [] acc d h e = cc
  collect-lookup k v ((j, w) ∷ m) acc (n, d) h e = elim (Bool-cases (key.beq j k)) [
    | inl c ↦
        let same : j ≡ k = (key.beq_iff j k).0 c in
        let value : some w ≡ some v = rw c at e in
        let written = lookup-insert_self (name j) (print w) acc in
        collect_keeps (name k) m (insert (name j) (print w) acc) d (λ i u l f.
          let clash = h i j u w (lookup-cons_rest j i w u m n l) (lookup-cons_self j w m) cc in cc)
        ∙ cc
    | inr c ↦
        collect-lookup k v m (insert (name j) (print w) acc) d (Names-rest j w m n h) (rw c at e)
  ]

  pub collect_complete :
      (k : K) (v : V) (m : Map K V)
      → Distinct m
      → Names m
      → lookup k m ≡ some v
      → Memᴰ (name k, print v) (collect name print m [])
  collect_complete k v m d h e =
      lookup-Memᴰ (name k) (print v) (collect name print m []) (collect-lookup k v m [] d h e)
