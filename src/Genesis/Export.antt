-- ===== src/Genesis/Export.antt =====
-- genesis.go: `ExportGenesis`. Errors are dropped.
use dollar.Base.{Option, none, some, []}
use dollar.Base.Int.{ℤ, pos}
use dollar.Types.{Result, ok, err, panic}
use dollar.Types.Store.{World}
use dollar.Types.Env.{Env}
use dollar.State.Dollar.{get_paused, or_zero}
use dollar.State.Portal.{get_portal_paused, get_portal_bridging_paths}
use dollar.State.Vaults.{get_vaults_paused, is_vaults_season_one_ended, get_vaults_positions}
use dollar.State.Listing.{
  get_portal_peers, get_vaults_rewards, get_vaults_total_flexible_principal, get_principal,
  get_total_external_yield, get_yield_recipients, get_retry_amounts,
}
use dollar.Genesis.Record.{PortalGenesis, VaultsGenesis, GenesisState, no_stats, no_vaults_stats}

-- What is not there is exported as this value.
abbrev pub or_value : {A : Type 0} → A → Option A → A
or_value a none = a
or_value a (some b) = b

abbrev pub zero_on_error : Result ℤ → ℤ
zero_on_error (ok n) = n
zero_on_error (err e) = pos 0
zero_on_error panic = pos 0

module _ {Chain : Type 0} where
  unfoldable pub export_portal : World Chain → PortalGenesis
  export_portal w = record {
    owner = or_value [] w.portal.owner;
    paused = get_portal_paused w;
    peers = get_portal_peers w.portal.peers;
    bridging_paths = get_portal_bridging_paths w.portal.bridging_paths;
    nonce = or_value 0 w.portal.nonce;
  }

  unfoldable pub export_vaults : World Chain → VaultsGenesis
  export_vaults w = record {
    positions = get_vaults_positions w.vaults.positions;
    rewards = get_vaults_rewards w.vaults.rewards;
    total_flexible_principal = zero_on_error (get_vaults_total_flexible_principal w);
    paused = get_vaults_paused w;
    season_one_ended = is_vaults_season_one_ended w;
    stats = or_value no_vaults_stats w.vaults.stats;
  }

module _ {Chain Decimal : Type 0} (env : Env Chain Decimal) where
  unfoldable pub export_genesis : World Chain → GenesisState
  unfolding export_portal export_vaults
  export_genesis w = record {
    portal = export_portal w;
    vaults = export_vaults w;
    paused = get_paused w;
    index = or_zero w.dollar.index;
    principal = (get_principal env w).0;
    stats = or_value no_stats w.dollar.stats;
    total_external_yield = get_total_external_yield env w;
    yield_recipients = get_yield_recipients env w;
    retry_amounts = get_retry_amounts env w;
  }
