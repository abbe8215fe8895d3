-- ===== src/Types/Env.antt =====
-- What the keeper is configured with, and the other modules that it calls: parameters of the
-- model, as one record. `Chain` is the state of those modules and `Decimal` their decimal numbers.
use dollar.Base.{ℕ, Bool, List, Option}
use dollar.Base.Int.{ℤ}
use dollar.Base.Bytes.{Bytes}
use dollar.Base.Map.{Map}
use dollar.Types.Outcome.{Result}
use dollar.Types.Store.{World}

-- The data of an ICS-20 packet.
pub record PacketData : Type 0 where
  pub denom : Bytes
  pub amount : Bytes
  pub sender : Bytes

-- A verified Wormhole message.
pub record Vaa : Type 0 where
  pub emitter_chain : ℕ
  pub emitter_address : Bytes
  pub payload : Bytes

-- A Hyperlane warp token: its internal id and its collateral.
pub record HypToken : Type 0 where
  pub id : ℕ
  pub collateral_balance : ℤ

-- The client state of an IBC channel, of the kinds that a query tells apart.
pub data ClientState : Type 0 where
  solomachine tendermint : Bytes → ClientState
  other_client : ClientState

-- The send restriction: sender, recipient and amount, and a new recipient.
abbrev pub Restriction : Type 0 → Type 0
Restriction Chain = Bytes → Bytes → ℤ → World Chain → Result Bytes × World Chain

abbrev pub Call : Type 0 → Type 0
Call Chain = Chain → Result (Unit {0}) × Chain

pub record Env (Chain Decimal : Type 0) : Type 0 where
  -- the fields of `Keeper` that are configured
  pub denom : Bytes
  pub authority : Bytes
  pub vaults_minimum_lock : ℤ
  pub vaults_minimum_unlock : ℤ
  pub vaults_season_one_end_timestamp : ℤ
  pub vaults_season_two_yield_collector : Bytes
  -- the header of the block, in seconds and in nanoseconds
  pub unix_time : ℤ
  pub unix_nano : ℕ
  -- `proto.EnumName`
  pub enum_name : Map ℤ Bytes → ℤ → Bytes
  -- addresses
  pub string_to_bytes : Bytes → Option Bytes
  pub bytes_to_string : Bytes → Option Bytes
  pub address_string : Bytes → Bytes
  pub new_module_address : Bytes → Bytes
  -- `sdk.NewCoins(sdk.NewCoin(denom, amount))`, as its amount of the one denomination
  pub new_coins : ℤ → Result ℤ
  -- bank: what a send does before and after it runs the restriction, and what the variants that
  -- name a module check first
  pub get_balance : Chain → Bytes → ℤ
  pub get_supply : Chain → ℤ
  pub mint_coins : Bytes → ℤ → Call Chain
  pub burn_coins : Bytes → ℤ → Call Chain
  pub before_restriction : Bytes → Bytes → ℤ → Call Chain
  pub after_restriction : Bytes → Bytes → ℤ → Call Chain
  pub check_module_send : Bytes → Bytes → Call Chain
  -- auth: a new module account of this name
  pub set_module_account : Bytes → Chain → Chain
  -- wormhole
  pub get_chain : Chain → Result ℕ
  pub parse_and_verify_vaa : Bytes → Chain → Result Vaa × Chain
  pub post_message : Bytes → Bytes → ℕ → Call Chain
  pub keccak256 : Bytes → Bytes
  -- ibc: channels, escrow addresses, and packets, and a transfer of an amount from a
  -- sender over a channel to a receiver, with a timeout, which sends coins and so runs the
  -- restriction
  pub has_channel : Chain → Bytes → Bool
  pub relative_timeout : ℕ
  pub unmarshal_packet : Bytes → Option PacketData
  pub unmarshal_ack : Bytes → Option Bool
  pub int_from_string : Bytes → Option ℤ
  pub int_to_string : ℤ → Bytes
  pub channel_client_state : Chain → Bytes → ClientState
  pub transfer_port : Bytes
  pub escrow_address : Bytes → Bytes → Bytes
  pub ibc_transfer :
      Restriction Chain
      → Bytes
      → ℤ
      → Bytes
      → Bytes
      → ℕ
      → World Chain
      → Result (Unit {0}) × World Chain
  -- hyperlane
  pub warp_module_name : Bytes
  pub decode_hex_address : Bytes → Option Bytes
  pub internal_id : Bytes → ℕ
  pub hyp_token : Chain → ℕ → Option HypToken
  pub enrolled_routers : Chain → ℕ → Result (List ℕ)
  pub remote_transfer_collateral :
      Restriction Chain
      → HypToken
      → Bytes
      → ℕ
      → Bytes
      → ℤ
      → World Chain
      → Result (Unit {0}) × World Chain
  -- `math.LegacyDec`
  pub dec_from_int : ℤ → Decimal
  pub dec_quo : Decimal → Decimal → Result Decimal
  pub dec_quo_int : Decimal → ℤ → Result Decimal
  pub dec_mul_int : Decimal → ℤ → Decimal
  pub truncate_int : Decimal → ℤ
