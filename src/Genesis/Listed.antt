-- ===== src/Genesis/Listed.antt =====
-- The lists that `ExportGenesis` makes of the maps of the store (genesis.go), as what `InitGenesis`
-- reads.
use dollar.Base.{◌≡◌, ◌↔◌, sym, some, List, [], ◌∷◌, arith, inl, inr, map}
use mathlib.Core.List.{Memᴰ}
use mathlib.Core.List.Memᴰ
use mathlib.Core.List.Memᴰ.{head, tail}
use dollar.Base.Key.{Key}
use dollar.Base.Map.{Map, lookup}
use dollar.Base.Map.Entries.{Distinct, lookup-Memᴰ}
use dollar.Types.{Result, ok}
use dollar.State.Listing.{collect}
use dollar.Genesis.Collect.{Names, collect_sound, collect_complete, lookup-cons_rest}
use dollar.Genesis.Reading.{Sound, Complete}

-- The same Go map: a range over it visits its entries in any order.
abbrev pub SameEntries : {E : Type 0} → List E → List E → Type 0
SameEntries {E} es es' = (e : E) → Memᴰ e es ↔ Memᴰ e es'

module _ {K V S T : Type 0} ⦃key : Key K⦄ ⦃text : Key S⦄ (name : K → S) (print : V → T)
    (read : S × T → Result (K × V)) (m : Map K V) (distinct : Distinct m)
    (readable : (k : K) (v w : V) → lookup k m ≡ some v → read (name k, print w) ≡ ok (k, w))
    (es : Map S T) (same : SameEntries es (collect name print m [])) where
  collect-Names : Names name print m
  collect-Names k j v w e f n = let a = readable k v v e in let b = readable j w v f in cc

  pub collect-Sound : Sound read m es
  collect-Sound e h = elim (collect_sound name print e m [] distinct ((same e).0 h)) [
    | inl t ↦ elim t [ ]
    | inr (k, v, l, p) ↦ (k, v, (rw p (readable k v v l), l))
  ]

  pub collect-Complete : Complete read m es
  collect-Complete k v l = (
    (name k, print v),
    (same (name k, print v)).1 (collect_complete name print k v m distinct collect-Names l),
    readable k v v l,
  )

module _ {K V : Type 0} ⦃key : Key K⦄ where
  Memᴰ-lookup : (k : K) (v : V) (m : Map K V) → Distinct m → Memᴰ (k, v) m → lookup k m ≡ some v
  unfolding lookup
  Memᴰ-lookup k v [] d t = elim t [ ]
  Memᴰ-lookup k v ((j, w) ∷ m) (n, d) (head p) = ground (arith, key.beq_iff j k)
  Memᴰ-lookup k v ((j, w) ∷ m) (n, d) (tail t) =
      lookup-cons_rest j k w v m n (Memᴰ-lookup k v m d t)

module _ {E K V : Type 0} ⦃key : Key K⦄ (entry : K × V → E) (read : E → Result (K × V))
    (m : Map K V) (distinct : Distinct m)
    (readable : (k : K) (v : V) → lookup k m ≡ some v → read (entry (k, v)) ≡ ok (k, v)) where
  pub map-Sound : Sound read m (map entry m)
  map-Sound e h =
      let ((k, v), t, p) = Memᴰ.of_map entry m h in
      let l = Memᴰ-lookup k v m distinct t in (k, v, (rw (sym p) (readable k v l), l))

  pub map-Complete : Complete read m (map entry m)
  map-Complete k v l = (entry (k, v), Memᴰ.map entry (lookup-Memᴰ k v m l), readable k v l)
