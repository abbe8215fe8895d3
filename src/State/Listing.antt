-- ===== src/State/Listing.antt =====
-- The listings of keeper/state.go, keeper/state_portal.go and keeper/state_vaults.go that genesis
-- and the queries read.
use dollar.Base.{ℕ, none, some, List, [], ◌∷◌}
use dollar.Base.Int.{ℤ}
use dollar.Base.Bytes.{Bytes}
use dollar.Base.Key.{Key, nat_key, bytes_key}
use dollar.Base.Map.{Map, insert}
use dollar.Types.{Result, ok, err, bad_address, not_found}
use dollar.Types.Store.{World, Peer, Reward}
use dollar.Types.Env.{Env}
use dollar.State.Provider.{key_string}

-- A walk over a map of the store that puts an entry for each of its entries in a Go map.
unfoldable pub collect :
    {K V S T : Type 0} ⦃key : Key S⦄ → (K → S) → (V → T) → Map K V → Map S T → Map S T
collect name print [] acc = acc
collect name print ((k, v) ∷ m) acc = collect name print m (insert (name k) (print v) acc)

unfoldable pub get_portal_peers : Map ℕ Peer → Map ℕ Peer
unfolding collect
get_portal_peers m = collect (λ chain. chain) (λ peer. peer) m []

unfoldable pub get_vaults_rewards : Map ℤ Reward → List Reward
get_vaults_rewards [] = []
get_vaults_rewards ((key, reward) ∷ m) = reward ∷ get_vaults_rewards m

unfoldable pub get_vaults_total_flexible_principal : {Chain : Type 0} → World Chain → Result ℤ
get_vaults_total_flexible_principal w = elim w.vaults.total_flexible_principal [
  | none ↦ err not_found
  | some value ↦ ok value
]

module _ {Chain Decimal : Type 0} (env : Env Chain Decimal) where
  -- The map that is filled so far comes with the error.
  unfoldable pub walk_principal :
      Map Bytes ℤ → Map Bytes Bytes → Map Bytes Bytes × Result (Unit {0})
  walk_principal [] principal = (principal, ok tt)
  walk_principal ((key, value) ∷ m) principal = elim (env.bytes_to_string key) [
    | none ↦ (principal, err bad_address)
    | some address ↦ walk_principal m (insert address (env.int_to_string value) principal)
  ]

  unfoldable pub get_principal : World Chain → Map Bytes Bytes × Result (Unit {0})
  unfolding walk_principal
  get_principal w = walk_principal w.dollar.principal []

  unfoldable pub get_total_external_yield : World Chain → Map Bytes Bytes
  unfolding collect
  get_total_external_yield w =
      collect (key_string env) env.int_to_string w.dollar.total_external_yield []

  unfoldable pub get_yield_recipients : World Chain → Map Bytes Bytes
  unfolding collect
  get_yield_recipients w =
      collect (key_string env) (λ recipient. recipient) w.dollar.yield_recipients []

  unfoldable pub get_retry_amounts : World Chain → Map Bytes Bytes
  unfolding collect
  get_retry_amounts w = collect (key_string env) env.int_to_string w.dollar.retry_amounts []
