-- ===== src/Vaults/Backing/Listing.antt =====
-- The positions that `unlock` walks over (keeper/state_vaults.go,
-- `GetVaultsPositionsByProviderAndVault`), against the map that it changes on the way.
use dollar.Base.{◌≡◌, ◌≢◌, ap, ◌∙◌, ◌&&◌, none, some, List, [], ◌∷◌, arith, Bool-cases, inl, inr}
use dollar.Base.Int.{ℤ, eqb_ℤ, eqb_ℤ_iff}
use dollar.Base.Bytes.{Bytes, bytes_eq}
use dollar.Base.Key.{int_key, bytes_key, pair_key}
use dollar.Base.Map.{Map, lookup}
use dollar.Base.Map.Unique.{lookup-cons-some, lookup-cons_self}
use dollar.Base.Map.Entries.{Distinct}
use dollar.Types.Store.{PositionKey, Position, PositionEntry}
use dollar.State.Vaults.{entry, get_vaults_positions_by_provider_and_vault}
use dollar.Vaults.Unlock.{key_of}
use dollar.Vaults.Backing.Shrinking.{position_of, shrunk, lookup-shrunk}

-- No entry stands under the key.
abbrev pub Without : PositionKey → List PositionEntry → Type 0
Without key [] = Unit {0}
Without key (e ∷ es) = (key ≢ key_of e) × Without key es

-- The entries are those of the map, in this vault, and no key comes twice.
abbrev pub Listed : ℤ → List PositionEntry → Map PositionKey Position → Type 0
Listed vault [] m = Unit {0}
Listed vault (e ∷ es) m =
    (lookup (key_of e) m ≡ some (position_of e))
    × (e.vault ≡ vault)
    × Without (key_of e) es
    × Listed vault es m

-- The entries that are left are still listed after a round.
pub shrunk-Listed :
    (vault : ℤ) (e : PositionEntry) (r p : ℤ) (es : List PositionEntry)
    (m : Map PositionKey Position)
    → Without (key_of e) es
    → Listed vault es m
    → Listed vault es (shrunk e r p m)
shrunk-Listed vault e r p [] m h l = tt
shrunk-Listed vault e r p (f ∷ es) m (ne, h) (found, same, fresh, l) = (
  rw (lookup-shrunk e r p (key_of f) m ne) found,
  same,
  fresh,
  shrunk-Listed vault e r p es m h l,
)

-- A map that grows by a new key still lists what it listed, and none of it under the new key.
grown :
    (vault : ℤ) (k : PositionKey) (p : Position) (es : List PositionEntry)
    (m : Map PositionKey Position)
    → lookup k m ≡ none
    → Listed vault es m
    → Without k es × Listed vault es ((k, p) ∷ m)
grown vault k p [] m e l = (tt, tt)
grown vault k p (f ∷ es) m e (found, same, fresh, l) =
    let (ne, still) = lookup-cons-some k (key_of f) p (position_of f) m e found in
    let (without, listed) = grown vault k p es m e l in
    ((ne, without), (still, same, fresh, listed))

module _ (addr : Bytes) (vault : ℤ) where
  -- In a map whose positions stand under their own times.
  pub get_vaults_positions_by_provider_and_vault-Listed :
      (m : Map PositionKey Position)
      → Distinct m
      → ((key : PositionKey) (p : Position) → lookup key m ≡ some p → p.time ≡ key.1.1)
      → Listed vault (get_vaults_positions_by_provider_and_vault addr vault m) m
  unfolding get_vaults_positions_by_provider_and_vault
  get_vaults_positions_by_provider_and_vault-Listed [] d timed = tt
  get_vaults_positions_by_provider_and_vault-Listed ((k, p) ∷ m) (n, d) timed =
      let ih =
        get_vaults_positions_by_provider_and_vault-Listed m d
          (λ key q e. timed key q (lookup-cons-some k key p q m n e).1) in
      let (without, listed) =
        grown vault k p (get_vaults_positions_by_provider_and_vault addr vault m) m n ih in
      elim (Bool-cases (bytes_eq k.0 addr && eqb_ℤ k.1.0 vault)) [
        | inl c ↦
            let own : key_of (entry k p) ≡ k =
              ap (λ t. (k.0, (k.1.0, t))) (timed k p (lookup-cons_self k p m)) in
            let stored : lookup (key_of (entry k p)) ((k, p) ∷ m) ≡ some p =
              ap (λ (key : PositionKey). lookup key ((k, p) ∷ m)) own ∙ lookup-cons_self k p m in
            rw c (stored, ground (arith, eqb_ℤ_iff k.1.0 vault), rw (← own) at without, listed)
        | inr c ↦ rw c listed
      ]
