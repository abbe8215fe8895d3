-- ===== src/Genesis/Record.antt =====
-- The genesis states (types/v2/genesis.pb.go, types/portal/genesis.pb.go and
-- types/vaults/genesis.pb.go), and the default one of types/v2/genesis.go. A Go map is a list of
-- its entries, in the order in which a range over it visits them.
use dollar.Base.{ℕ, Bool, false, none, List, []}
use dollar.Base.Int.{ℤ, pos}
use dollar.Base.Bytes.{Bytes}
use dollar.Base.Map.{Map}
use dollar.Types.Store.{Stats, Peer, PositionEntry, Reward, VaultsStats}

pub record PortalGenesis : Type 0 where
  pub owner : Bytes
  pub paused : Bool
  pub peers : Map ℕ Peer
  pub bridging_paths : List (ℕ × Bytes)
  pub nonce : ℕ

pub record VaultsGenesis : Type 0 where
  pub positions : List PositionEntry
  pub rewards : List Reward
  pub total_flexible_principal : ℤ
  pub paused : ℤ
  pub season_one_ended : Bool
  pub stats : VaultsStats

pub record GenesisState : Type 0 where
  pub portal : PortalGenesis
  pub vaults : VaultsGenesis
  pub paused : Bool
  pub index : ℤ
  pub principal : Map Bytes Bytes
  pub stats : Stats
  pub total_external_yield : Map Bytes Bytes
  pub yield_recipients : Map Bytes Bytes
  pub retry_amounts : Map Bytes Bytes

-- Go's zero values; a nil integer is written as 0.
abbrev pub no_stats : Stats
no_stats = record { total_holders = 0; total_principal = pos 0; total_yield_accrued = pos 0 }

abbrev pub no_vaults_stats : VaultsStats
no_vaults_stats = record {
  flexible_total_principal = pos 0;
  flexible_total_users = 0;
  flexible_total_distributed_rewards_principal = none;
  staked_total_principal = pos 0;
  staked_total_users = 0;
}

abbrev pub no_portal : PortalGenesis
no_portal = record { owner = []; paused = false; peers = []; bridging_paths = []; nonce = 0 }

abbrev pub no_vaults : VaultsGenesis
no_vaults = record {
  positions = [];
  rewards = [];
  total_flexible_principal = pos 0;
  paused = pos 0;
  season_one_ended = false;
  stats = no_vaults_stats;
}

abbrev pub default_genesis_state : GenesisState
default_genesis_state = record {
  portal = no_portal;
  vaults = no_vaults;
  paused = false;
  index = pos 1_000_000_000_000;
  principal = [];
  stats = no_stats;
  total_external_yield = [];
  yield_recipients = [];
  retry_amounts = [];
}
