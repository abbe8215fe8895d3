-- ===== src/Query/Vaults.antt =====
-- keeper/query_server_vaults.go
use dollar.Base.{Option, List}
use dollar.Base.Int.{ℤ}
use dollar.Base.Bytes.{Bytes}
use dollar.Types.{M, bad_address, invalid_request, gets, get_item, or_throw, ◌>>=◌, ◌>>◌}
use dollar.Types.Store.{World, PositionEntry, VaultsStats}
use dollar.Types.Env.{Env}
use dollar.State.Vaults.{
  flexible, get_vaults_paused, get_vaults_stats, get_vaults_positions_by_provider,
  get_vaults_positions_by_provider_and_vault,
}
use dollar.State.Listing.{get_vaults_rewards}
use dollar.Query.Dollar.{asked}
use dollar.Query.Rewards.{PositionRewards, total_rewards, positions_rewards}

module _ {Chain : Type 0} where
  unfoldable pub query_vaults_paused : Option (Unit {0}) → M (World Chain) ℤ
  query_vaults_paused req = do asked req; gets get_vaults_paused

  unfoldable pub query_pending_rewards : Option (Unit {0}) → M (World Chain) ℤ
  unfolding total_rewards
  query_pending_rewards req = do
    asked req
    gets (λ w. total_rewards (get_vaults_rewards w.vaults.rewards))

  unfoldable pub query_vaults_stats : Option (Unit {0}) → M (World Chain) VaultsStats
  query_vaults_stats req = do asked req; get_vaults_stats

module _ {Chain Decimal : Type 0} (env : Env Chain Decimal) where
  unfoldable pub query_positions_by_provider : Option Bytes → M (World Chain) (List PositionEntry)
  query_positions_by_provider req = do
    provider ← asked req
    addr ← or_throw (env.string_to_bytes provider) invalid_request
    gets (λ w. get_vaults_positions_by_provider addr w.vaults.positions)

  unfoldable pub query_pending_rewards_by_provider :
      Option Bytes → M (World Chain) (ℤ × List PositionRewards)
  unfolding positions_rewards
  query_pending_rewards_by_provider req = do
    provider ← asked req
    addr ← or_throw (env.string_to_bytes provider) bad_address
    positions ←
        gets (λ w. get_vaults_positions_by_provider_and_vault addr flexible w.vaults.positions)
    current_index ← get_item (λ w. w.dollar.index)
    λ w. (positions_rewards env current_index positions w.vaults.rewards, w)
