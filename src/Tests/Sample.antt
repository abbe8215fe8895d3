-- ===== src/Tests/Sample.antt =====
-- A small chain for the runs: the bank of utils/mocks/bank.go, and simple other modules.
use dollar.Base.{true, false, Option, none, some, [], ◌∷◌, ◌==◌, if◌then◌else◌}
use dollar.Base.Int.{ℤ, pos, negsuc, eqb_ℤ, ◌*ℤ◌, quo, is_zero, is_negative}
use dollar.Base.Bytes.{Bytes, codes}
use dollar.Types.{Result, ok, panic}
use dollar.Types.Store.{World, Dollar, Portal, Vaults, Peer}
use dollar.Types.Env.{Env, tendermint}
use dollar.Base.Map.{Map}
use dollar.Bank.Mock

abbrev pub alice : Bytes
alice = codes "alice"

abbrev pub bob : Bytes
bob = codes "bob"

abbrev pub owner : Bytes
owner = codes "owner"

abbrev pub authority : Bytes
authority = codes "authority"

-- Coins of a negative amount panic.
abbrev pub new_coins : ℤ → Result ℤ
new_coins amount = if is_negative amount then panic else ok amount

-- Decimals are kept as fractions of 10^18, cut towards zero.
abbrev dec_unit : ℤ
dec_unit = pos 1_000_000_000_000_000_000

abbrev divide : ℤ → ℤ → Result ℤ
divide a b = if is_zero b then panic else ok (quo a b)

-- A code for integers that is not decimal but short: one byte for the sign, one for the value.
abbrev print_int : ℤ → Bytes
print_int (pos n) = 43 ∷ n ∷ []
print_int (negsuc n) = 45 ∷ n ∷ []

-- A text of another shape is read as 7.
abbrev read_int : Bytes → Option ℤ
read_int [] = some (pos 7)
read_int (sign ∷ []) = some (pos 7)
read_int (sign ∷ n ∷ []) = if sign == 43 then some (pos n) else some (negsuc n)
read_int (sign ∷ n ∷ _ ∷ _) = some (pos 7)

abbrev name_of : Map ℤ Bytes → ℤ → Bytes
name_of [] n = []
name_of ((k, name) ∷ m) n = if eqb_ℤ k n then name else name_of m n

-- Every text is an address, and a module's address is its name.
abbrev pub sample_env : Env Mock.Balances ℤ
sample_env = record {
  denom = codes "uusdn";
  authority = authority;
  vaults_minimum_lock = pos 1_000_000;
  vaults_minimum_unlock = pos 1_000_000;
  vaults_season_one_end_timestamp = pos 1_000;
  vaults_season_two_yield_collector = codes "collector";
  unix_time = pos 500;
  unix_nano = 500_000_000_000;
  enum_name = name_of;
  string_to_bytes = λ s. some s;
  bytes_to_string = λ b. some b;
  address_string = λ b. b;
  new_module_address = λ name. name;
  new_coins = new_coins;
  get_balance = Mock.get_balance;
  get_supply = Mock.get_supply;
  mint_coins = Mock.mint_coins;
  burn_coins = Mock.burn_coins;
  before_restriction = λ from to amount c. (ok tt, c);
  after_restriction = Mock.move_coins;
  check_module_send = λ name account c. (ok tt, c);
  set_module_account = λ name c. c;
  get_chain = λ c. ok 4009;
  parse_and_verify_vaa =
      λ bz c. (ok (record { emitter_chain = 2; emitter_address = bz; payload = bz }), c);
  post_message = λ signer message nonce c. (ok tt, c);
  keccak256 = λ bz. bz;
  has_channel = λ c channel. true;
  relative_timeout = 600_000_000_000;
  unmarshal_packet =
      λ bz. some (record { denom = codes "uusdn"; amount = bz; sender = codes "escrow" });
  unmarshal_ack = λ bz. some false;
  int_from_string = read_int;
  int_to_string = print_int;
  channel_client_state = λ c channel. tendermint (codes "noble-1");
  transfer_port = codes "transfer";
  escrow_address = λ port channel. codes "escrow";
  ibc_transfer = λ hook channel amount sender receiver timeout w. (ok tt, w);
  warp_module_name = codes "warp";
  decode_hex_address = λ bz. some bz;
  internal_id = λ bz. 0;
  hyp_token = λ c id. none;
  enrolled_routers = λ c id. ok [];
  remote_transfer_collateral = λ hook token sender domain receiver amount w. (ok tt, w);
  dec_from_int = λ n. n *ℤ dec_unit;
  dec_quo = λ a b. divide (a *ℤ dec_unit) b;
  dec_quo_int = divide;
  dec_mul_int = λ a n. a *ℤ n;
  truncate_int = λ a. quo a dec_unit;
}

abbrev pub sample_dollar : Dollar
sample_dollar = record {
  paused = none;
  index = some (pos 1_500_000_000_000);
  principal = (alice, pos 40) ∷ (bob, pos 20) ∷ [];
  stats =
      some (record { total_holders = 2; total_principal = pos 62; total_yield_accrued = pos 0 });
  total_external_yield = [];
  yield_recipients = [];
  retry_amounts = ((pos 0, codes "channel-0"), pos 5) ∷ [];
}

abbrev pub sample_peer : Peer
sample_peer = record { transceiver = codes "t"; manager = codes "m" }

abbrev pub sample_portal : Portal
sample_portal = record {
  owner = some owner;
  paused = none;
  peers = (2, sample_peer) ∷ [];
  bridging_paths = [];
  nonce = some 4_294_967_295;
}

abbrev pub sample_vaults : Vaults
sample_vaults = record {
  paused = none;
  season_one_ended = none;
  positions = [];
  total_flexible_principal = none;
  rewards = [];
  stats = some (record {
    flexible_total_principal = pos 0;
    flexible_total_users = 0;
    flexible_total_distributed_rewards_principal = none;
    staked_total_principal = pos 0;
    staked_total_users = 0;
  });
}

abbrev pub sample_world : World Mock.Balances
sample_world = record {
  dollar = sample_dollar;
  portal = sample_portal;
  vaults = sample_vaults;
  chain = (alice, pos 60) ∷ (bob, pos 30) ∷ [];
  events = [];
}
