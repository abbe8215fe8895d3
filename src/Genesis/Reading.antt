-- ===== src/Genesis/Reading.antt =====
-- The loops of `InitGenesis` (genesis.go) over the entries that a map of the store was exported to.
use dollar.Base.{
  ◌≡◌, ◌⊎◌, refl, sym, ap, ◌∙◌, some, List, [], ◌∷◌, arith, inl, inr, Bool-cases, Option-cases,
}
use mathlib.Core.List.{Memᴰ}
use mathlib.Core.List.Memᴰ.{head, tail}
use dollar.Base.Key.{Key}
use dollar.Base.Map.{Map, lookup, insert}
use dollar.Base.Map.Laws.{lookup-insert}
use dollar.Types.{Result, ok}
use dollar.Genesis.Init.{set_each}

module _ {E K V : Type 0} ⦃key : Key K⦄ (read : E → Result (K × V)) (m : Map K V) where
  -- The entry reads as an entry of the map.
  abbrev pub ReadsAs : E → K → V → Type 0
  ReadsAs e k v = (read e ≡ ok (k, v)) × (lookup k m ≡ some v)

  abbrev pub Sound : List E → Type 0
  Sound es = (e : E) → Memᴰ e es → (k : K) × (v : V) × ReadsAs e k v

  abbrev pub Complete : List E → Type 0
  Complete es = (k : K) (v : V) → lookup k m ≡ some v → (e : E) × Memᴰ e es × (read e ≡ ok (k, v))

  -- The key has its value already, or it is still to come.
  abbrev Reached : Map K V → List E → K → Type 0
  Reached acc es k = (lookup k acc ≡ lookup k m) ⊎ ((v : V) × (e : E) × Memᴰ e es × ReadsAs e k v)

  step :
      (k j : K) (v : V) (e : E) (es : List E) (acc : Map K V)
      → ReadsAs e j v
      → Reached acc (e ∷ es) k
      → Reached (insert j v acc) es k
  step k j v e es acc (r, l) reached = elim (Bool-cases (key.beq j k)) [
    | inl c ↦ inl (let same : j ≡ k = (key.beq_iff j k).0 c in rw (lookup-insert j k v acc, c) cc)
    | inr c ↦ elim reached [
      | inl same ↦ inl (rw (lookup-insert j k v acc, c) same)
      | inr (u, x, head p, (r', l')) ↦ absurd (ground (arith, key.beq_iff j k))
      | inr (u, x, tail t, q) ↦ inr (u, x, t, q)
    ]
  ]

module _ {W E K V : Type 0} ⦃key : Key K⦄ (read : E → Result (K × V)) (get : W → Map K V)
    (put : Map K V → W → W) (get_put : (n : Map K V) (w : W) → get (put n w) ≡ n)
    (put_put : (n n' : Map K V) (w : W) → put n (put n' w) ≡ put n w)
    (put_get : (w : W) → put (get w) w ≡ w) (m : Map K V) where
  abbrev set : K → V → W → W
  set k v w = put (insert k v (get w)) w

  set_each-lookup :
      (es : List E) (acc : Map K V)
      → Sound read m es
      → (n : Map K V) × ((w : W) → get w ≡ acc → set_each read set es w ≡ (ok tt, put n w))
        × ((k : K) → Reached read m acc es k → lookup k n ≡ lookup k m)
  unfolding set_each
  set_each-lookup [] acc sound = (
    acc,
    λ w start. rw (sym start, put_get w) refl,
    λ k reached. elim reached [ inl same ↦ same | inr (v, x, t, q) ↦ elim t [ ] ],
  )
  set_each-lookup (e ∷ es) acc sound =
      let (j, v, (r, l)) = sound e (head refl) in
      let (n, done, f) = set_each-lookup es (insert j v acc) (λ x t. sound x (tail t)) in
      (
        n,
        λ w start. rw r (
            done (set j v w) (get_put (insert j v (get w)) w ∙ ap (insert j v) start)
            ∙ rw put_put refl),
        λ k reached. f k (step read m k j v e es acc (r, l) reached),
      )

  -- From the empty map, the loop ends with the entries of the map that was exported.
  pub set_each-same :
      (es : List E)
      → Sound read m es
      → Complete read m es
      → (n : Map K V) × ((w : W) → get w ≡ [] → set_each read set es w ≡ (ok tt, put n w))
        × ((k : K) → lookup k n ≡ lookup k m)
  unfolding lookup
  set_each-same es sound complete =
      let (n, done, f) = set_each-lookup es [] sound in
      (
        n,
        done,
        λ k. f k (elim (Option-cases (lookup k m)) [
          | inl none' ↦ inl (sym none')
          | inr (v, e) ↦ let (x, t, r) = complete k v e in inr (v, x, t, (r, e))
        ]),
      )
