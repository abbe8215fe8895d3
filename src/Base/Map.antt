-- ===== src/Base/Map.antt =====
-- The maps of the store (`collections.Map`): entries by key, kept in the order of the keys.
pub mod Laws
pub mod Entries
pub mod Unique
use mathlib.Core.Bool.{Bool, true, false}
use mathlib.Core.Option.{Option, none, some}
use mathlib.Core.List.{List, [], ◌∷◌}
use dollar.Base.Tests.{if◌then◌else◌}
use dollar.Base.Key.{Key}

abbrev pub Map : Type 0 → Type 0 → Type 0
Map K V = List (K × V)

module _ {K V : Type 0} ⦃key : Key K⦄ where
  unfoldable pub lookup : K → Map K V → Option V
  lookup k [] = none
  lookup k ((j, v) ∷ m) = if key.beq j k then some v else lookup k m

  unfoldable pub has : K → Map K V → Bool
  unfolding lookup
  has k m = elim (lookup k m) [ none ↦ false | some _ ↦ true ]

  -- A present key keeps its place.
  unfoldable pub replace : K → V → Map K V → Map K V
  replace k v [] = []
  replace k v ((j, w) ∷ m) = if key.beq j k then (k, v) ∷ m else (j, w) ∷ replace k v m

  -- A new key goes in front of the first larger one.
  unfoldable pub place : K → V → Map K V → Map K V
  place k v [] = (k, v) ∷ []
  place k v ((j, w) ∷ m) = if key.lt k j then (k, v) ∷ (j, w) ∷ m else (j, w) ∷ place k v m

  unfoldable pub insert : K → V → Map K V → Map K V
  unfolding has replace place
  insert k v m = if has k m then replace k v m else place k v m

  unfoldable pub remove : K → Map K V → Map K V
  remove k [] = []
  remove k ((j, w) ∷ m) = if key.beq j k then m else (j, w) ∷ remove k m
