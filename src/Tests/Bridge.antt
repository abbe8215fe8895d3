-- ===== src/Tests/Bridge.antt =====
-- A run of a portal transfer: what it does to the supply and to the nonce.
use dollar.Base.{ℕ, ◌≡◌, ◌%◌, ◌^◌, ◌+◌, ◌-◌, refl, true, some, [], ◌∷◌, arith, replicate}
use dollar.Base.Int.{pos, ◌+ℤ◌, ◌-ℤ◌, ◌*ℤ◌, ◌≤ℤ◌, quo, fits256}
use dollar.Base.Bytes.{bytes_eq, bytes_lt}
use dollar.Base.Map.{lookup, has, insert}
use dollar.Base.Map.Laws.{sum}
use dollar.Types.{ok}
use dollar.Types.Store.{World}
use dollar.Math.{quo_raw, get_principal_amount_rounded_up}
use dollar.State.Dollar.{safe_sub, decrement_total_principal, decrement_total_holders}
use dollar.State.Portal.{get_portal_paused, increment_portal_nonce}
use dollar.Restriction.{
  send_restriction, move_principal, debit_sender, credit_recipient, principal_of, set_principal,
}
use dollar.Restriction.Totals.{Totals}
use dollar.Bank.{send_coins, send_coins_from_account_to_module}
use dollar.Bank.Mock.{Balances, get_balance, get_supply, move_coins}
use dollar.Bank.Laws.{IsUser}
use dollar.Yield.{burn}
use dollar.Index.Solvency.{Worth}
use dollar.Portal.Constants.{pad_left, uint64_of, int64_of}
use dollar.Portal.Transfer.{MsgTransfer, check_transfer, transfer}
use dollar.Portal.Burning.{PostsAside, transfer-Worth}
use dollar.Tests.Sample.{alice, sample_env, sample_world, sample_portal}
use dollar.Tests.Supply.{sample-IsBank, supply_of_sample}
use dollar.Tests.Keeper.{module_account}

-- Alice sends 6 to the peer on the chain 2.
abbrev msg : MsgTransfer
msg = record {
  signer = alice;
  amount = pos 6;
  destination_chain_id = 2;
  destination_token = replicate 32 6;
  recipient = replicate 32 7;
}

abbrev bridge_world : World Balances
bridge_world = record sample_world {
  portal = record sample_portal { bridging_paths = ((2, replicate 32 6), true) ∷ [] };
}

abbrev sent_world : World Balances
sent_world = (transfer sample_env msg bridge_world).1

transfer_runs : transfer sample_env msg bridge_world ≡ (ok tt, sent_world)
unfolding transfer check_transfer get_portal_paused lookup has bytes_eq pad_left uint64_of int64_of
    increment_portal_nonce burn send_coins_from_account_to_module send_coins send_restriction
    move_principal debit_sender credit_recipient principal_of set_principal insert bytes_lt
    get_principal_amount_rounded_up quo_raw quo ◌+ℤ◌ ◌-ℤ◌ ◌*ℤ◌ decrement_total_principal safe_sub
    decrement_total_holders get_balance move_coins dollar.Bank.burn_coins fits256
    dollar.Bank.Mock.burn_coins
transfer_runs = refl

alice-IsUser : IsUser sample_env alice
unfolding bytes_eq
alice-IsUser = record {
  no_module = refl;
  module_no = refl;
  no_yield = refl;
  differ = refl;
  allowed = λ c. refl;
}

sample-PostsAside : PostsAside sample_env
sample-PostsAside = record { posts = λ signer message nonce c. refl }

alice_owns : pos 6 ≤ℤ get_balance bridge_world.chain alice
unfolding get_balance bytes_eq lookup
alice_owns = omega arith

module_empty : pos 0 ≤ℤ get_balance bridge_world.chain module_account
unfolding get_balance bytes_eq lookup
module_empty = omega arith

total_fits : fits256 (pos 62 -ℤ pos 4) ≡ true
unfolding fits256 ◌-ℤ◌
total_fits = refl

bridge-Totals : Totals bridge_world (pos 60) (pos 62) (pos 1_500_000_000_000)
unfolding sum ◌+ℤ◌
bridge-Totals = record {
  stats = _;
  has_stats = refl;
  of_total = refl;
  of_held = refl;
  of_index = refl;
}

bridge-Worth : Worth sample_env 1_500_000_000_000 bridge_world (pos 60) 62 90
bridge-Worth = record { totals = bridge-Totals; supply = supply_of_sample }

-- The nonce is the largest of 32 bits.
transfer-Worth_example :
    (u : ℕ) × (get_principal_amount_rounded_up (pos 6) (pos 1_500_000_000_000) ≡ ok (pos u))
    × Worth sample_env 1_500_000_000_000 sent_world (pos 60 -ℤ pos u) (62 - u) 84
    × (sent_world.portal.nonce ≡ some ((4_294_967_295 + 1) % 2 ^ 32))
transfer-Worth_example =
    transfer-Worth sample_env sample-IsBank sample-PostsAside msg alice 6 1_500_000_000_000
      4_294_967_295 90 62 (pos 60) bridge_world sent_world (omega arith) (omega arith) alice-IsUser
      alice_owns module_empty (omega arith) (omega arith) total_fits bridge-Worth refl refl refl
      transfer_runs
