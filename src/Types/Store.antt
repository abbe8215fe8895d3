-- ===== src/Types/Store.antt =====
-- The state of the keeper (keeper/keeper.go, `type Keeper struct`) as records of its items and
-- maps, the events, and the configuration and the other modules, which are parameters.
use dollar.Base.{ℕ, Bool, List, Option}
use dollar.Base.Int.{ℤ}
use dollar.Base.Bytes.{Bytes}
use dollar.Base.Map.{Map}

-- A provider and an identifier. Protobuf enums are open: they are their int32 numbers.
abbrev pub YieldKey : Type 0
YieldKey = ℤ × Bytes

pub record Stats : Type 0 where
  pub total_holders : ℕ
  pub total_principal : ℤ
  pub total_yield_accrued : ℤ

pub record Dollar : Type 0 where
  pub paused : Option Bool
  pub index : Option ℤ
  pub principal : Map Bytes ℤ
  pub stats : Option Stats
  pub total_external_yield : Map YieldKey ℤ
  pub yield_recipients : Map YieldKey Bytes
  pub retry_amounts : Map YieldKey ℤ

pub record Peer : Type 0 where
  pub transceiver : Bytes
  pub manager : Bytes

pub record Portal : Type 0 where
  pub owner : Option Bytes
  pub paused : Option Bool
  pub peers : Map ℕ Peer
  pub bridging_paths : Map (ℕ × Bytes) Bool
  pub nonce : Option ℕ

-- An address, a vault type and a block time in seconds.
abbrev pub PositionKey : Type 0
PositionKey = Bytes × (ℤ × ℤ)

pub record Position : Type 0 where
  pub principal : ℤ
  pub index : ℤ
  pub amount : ℤ
  pub time : ℤ

pub record PositionEntry : Type 0 where
  pub address : Bytes
  pub vault : ℤ
  pub principal : ℤ
  pub index : ℤ
  pub amount : ℤ
  pub time : ℤ

pub record Reward : Type 0 where
  pub index : ℤ
  pub total : ℤ
  pub rewards : ℤ

-- The distributed rewards may be the nil integer.
pub record VaultsStats : Type 0 where
  pub flexible_total_principal : ℤ
  pub flexible_total_users : ℕ
  pub flexible_total_distributed_rewards_principal : Option ℤ
  pub staked_total_principal : ℤ
  pub staked_total_users : ℕ

pub record Vaults : Type 0 where
  pub paused : Option ℤ
  pub season_one_ended : Option Bool
  pub positions : Map PositionKey Position
  pub total_flexible_principal : Option ℤ
  pub rewards : Map ℤ Reward
  pub stats : Option VaultsStats

pub data Event : Type 0 where
  yield_claimed : Bytes → ℤ → Event
  dollar_paused dollar_unpaused portal_was_paused portal_was_unpaused : Event
  index_updated : ℤ → ℤ → ℤ → ℤ → Event
  yield_recipient_set : ℤ → Bytes → Bytes → Event
  delivered : Bytes → Event
  m_token_received : ℕ → Bytes → Bytes → Bytes → ℤ → ℤ → Bytes → Event
  transfer_redeemed : Bytes → Event
  usdn_token_sent : Bytes → ℕ → Bytes → Bytes → Bytes → ℤ → ℤ → Bytes → Event
  transfer_sent : Bytes → ℤ → ℕ → ℕ → Event
  transfer_digest : Bytes → Event
  peer_updated : ℕ → Bytes → Bytes → Bytes → Bytes → Event
  bridging_path_set : ℕ → Bytes → Bool → Event
  ownership_transferred : Bytes → Bytes → Event
  position_locked : Bytes → ℤ → ℤ → ℤ → ℤ → Event
  position_unlocked : Bytes → ℤ → ℤ → ℤ → ℤ → Event
  vaults_paused_state_updated : ℤ → Event
  reward_claimed : Bytes → ℤ → Event

-- `chain` is the state of all the other modules.
pub record World (Chain : Type 0) : Type 0 where
  pub dollar : Dollar
  pub portal : Portal
  pub vaults : Vaults
  pub chain : Chain
  pub events : List Event
