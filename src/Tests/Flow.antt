-- ===== src/Tests/Flow.antt =====
-- A run of a mint and a burn, for the bound on what they do to the supply.
use dollar.Base.{ℕ, ◌≡◌, ◌≤◌, ◌-◌, ◌*◌, ◌/◌, ◌+◌, refl, true, none, some, arith}
use dollar.Base.Int.{ℤ, pos, ◌+ℤ◌, ◌-ℤ◌, ◌≤ℤ◌, fits256}
use dollar.Base.Bytes.{bytes_eq}
use dollar.Types.{ok}
use dollar.Types.Store.{World}
use dollar.Bank.Mock.{Balances, get_balance, get_supply}
use dollar.Index.Solvency.{Worth, Flow, minted, burned, done, Flow-Worth}
use dollar.Tests.Supply.{sample-IsBank, supply_of_sample, bob-IsUser, no_module_balance, fits_up}
use dollar.Base.{[], ◌∷◌}
use dollar.Tests.Sample.{alice, sample_dollar}
use dollar.Base.Map.Laws.{sum}
use dollar.Base.Map.{lookup}
use dollar.Base.Int.{◌*ℤ◌, quo}
use dollar.Math.{quo_raw}
use dollar.Bank.{send_coins, send_coins_from_account_to_module, send_coins_from_module_to_account}
use dollar.Bank.Mock.{move_coins}
use dollar.Restriction.{
  send_restriction, move_principal, debit_sender, credit_recipient, principal_of, set_principal,
}
use dollar.State.Dollar.{
  safe_add, safe_sub, increment_total_principal, decrement_total_principal, increment_total_holders,
  decrement_total_holders,
}
use dollar.Index.Update.{mint}
use dollar.Yield.{burn}
use dollar.Math.{get_principal_amount_rounded_up, get_principal_amount_rounded_down}
use dollar.Restriction.Totals.{Totals}
use dollar.Tests.Keeper.{module_account, sample-Totals}
use dollar.Tests.Sample.{bob, sample_env, sample_world}

abbrev world_of : ℤ → ℤ → ℤ → World Balances
world_of principal total balance = record sample_world {
  dollar = record sample_dollar {
    principal = (alice, pos 40) ∷ (bob, principal) ∷ [];
    stats =
        some (record { total_holders = 2; total_principal = total; total_yield_accrued = pos 0 });
  };
  chain = (alice, pos 60) ∷ (bob, balance) ∷ (module_account, pos 0) ∷ [];
}

-- Bob is issued 6 at an index of 1.5: a principal of 4.
abbrev after_mint : World Balances
after_mint = world_of (pos 24) (pos 66) (pos 36)

-- And 3 are taken back: a principal of 2.
abbrev after_burn : World Balances
after_burn = world_of (pos 22) (pos 64) (pos 33)

mint_runs : mint sample_env bob (pos 6) none sample_world ≡ (ok tt, after_mint)
unfolding mint dollar.Bank.mint_coins dollar.Bank.Mock.mint_coins send_coins_from_module_to_account
    get_principal_amount_rounded_down debit_sender credit_recipient increment_total_principal
    increment_total_holders get_balance move_coins lookup send_coins send_restriction bytes_eq
    move_principal quo_raw get_principal_amount_rounded_up quo ◌+ℤ◌ ◌-ℤ◌ ◌*ℤ◌ safe_add safe_sub
    fits256 principal_of set_principal dollar.Base.Map.insert dollar.Base.Bytes.bytes_lt
mint_runs = refl

burn_runs : burn sample_env bob (pos 3) after_mint ≡ (ok tt, after_burn)
unfolding burn dollar.Bank.burn_coins dollar.Bank.Mock.burn_coins send_coins_from_account_to_module
    debit_sender decrement_total_principal decrement_total_holders get_balance move_coins lookup
    send_coins send_restriction bytes_eq move_principal quo_raw get_principal_amount_rounded_up quo
    ◌+ℤ◌ ◌-ℤ◌ ◌*ℤ◌ safe_add safe_sub fits256 principal_of set_principal dollar.Base.Map.insert
    dollar.Base.Bytes.bytes_lt
burn_runs = refl

sample-Worth : Worth sample_env 1_500_000_000_000 sample_world (pos 60) 62 90
sample-Worth = record { totals = sample-Totals; supply = supply_of_sample }

after_mint-Totals : Totals after_mint (pos 64) (pos 66) (pos 1_500_000_000_000)
unfolding sum ◌+ℤ◌
after_mint-Totals = record {
  stats = _;
  has_stats = refl;
  of_total = refl;
  of_held = refl;
  of_index = refl;
}

supply_after_mint : get_supply after_mint.chain ≡ pos 96
unfolding get_supply sum ◌+ℤ◌
supply_after_mint = refl

after_mint-Worth : Worth sample_env 1_500_000_000_000 after_mint (pos 64) 66 96
after_mint-Worth = record { totals = after_mint-Totals; supply = supply_after_mint }

bob_has : pos 3 ≤ℤ get_balance after_mint.chain bob
unfolding get_balance bytes_eq lookup
bob_has = omega arith

module_empty : pos 0 ≤ℤ get_balance after_mint.chain module_account
unfolding get_balance bytes_eq lookup
module_empty = omega arith

fits_two : fits256 (pos 66 -ℤ pos 2) ≡ true
unfolding fits256 ◌-ℤ◌
fits_two = refl

sample-Flow : Flow sample_env 1_500_000_000_000 sample_world 1 after_burn
sample-Flow = minted sample-Worth (omega arith) bob-IsUser no_module_balance fits_up mint_runs (
    burned after_mint-Worth (omega arith) bob-IsUser bob_has module_empty (omega arith)
      (omega arith) fits_two burn_runs done)

Flow-Worth_example :
    (h' : ℤ) × (t' s' : ℕ) × Worth sample_env 1_500_000_000_000 after_burn h' t' s'
    × (s' + 93 ≤ 90 + t' * 1_500_000_000_000 / 1_000_000_000_000 + 1 * (1 + 1))
Flow-Worth_example =
    Flow-Worth sample_env 1_500_000_000_000 sample-IsBank (omega arith) (pos 60) 62 90 sample-Flow
      sample-Worth
