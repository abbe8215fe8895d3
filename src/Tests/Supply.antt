-- ===== src/Tests/Supply.antt =====
-- Runs of the theorems on the bank's supply.
use dollar.Base.{ℕ, ◌≡◌, ◌≤◌, ◌-◌, ◌*◌, ◌/◌, ◌+◌, refl, true, none, some, arith}
use dollar.Base.Int.{pos, ◌+ℤ◌, ◌-ℤ◌, ◌≤ℤ◌, fits256}
use dollar.Base.Bytes.{bytes_eq}
use dollar.Types.{ok}
use dollar.Types.Store.{World, Stats}
use dollar.Bank.Laws.{IsBank, IsUser}
use dollar.Bank.Mock.{Balances, get_balance, get_supply}
use dollar.Bank.Mock.Laws.{mint_coins_lem, burn_coins_lem, move_coins_lem}
use dollar.Base.Map.Laws.{sum}
use dollar.Base.Map.{lookup}
use dollar.Index.Update.{mint}
use dollar.Index.Minting.{mint_lem}
use dollar.Yield.{burn, get_yield, claim_yield}
use dollar.Yield.Claiming.{CanClaim, claim_yield_lem}
use dollar.Base.{false, [], ◌∷◌}
use dollar.Base.Bytes.{Bytes, codes}
use dollar.Tests.Sample.{alice, sample_dollar}
use dollar.State.Dollar.{get_paused}
use dollar.Restriction.{principal_of}
use dollar.Yield.Burning.{burn_lem}
use dollar.Math.{get_principal_amount_rounded_up, get_principal_amount_rounded_down}
use dollar.Restriction.Totals.{Totals}
use dollar.Tests.Keeper.{module_account, sample-Totals}
use dollar.Tests.Sample.{bob, sample_env, sample_world}

coins : (n : ℕ) → sample_env.new_coins (pos n) ≡ ok (pos n)
coins n = ground arith

pub sample-IsBank : IsBank sample_env
sample-IsBank = record {
  coins = coins;
  mints = mint_coins_lem;
  burns = burn_coins_lem;
  restricts = λ sender recipient n c. refl;
  sends = move_coins_lem;
}

abbrev sample_stats : Stats
sample_stats = record { total_holders = 2; total_principal = pos 62; total_yield_accrued = pos 0 }

pub supply_of_sample : get_supply sample_world.chain ≡ pos 90
unfolding get_supply sum ◌+ℤ◌
supply_of_sample = refl

pub no_module_balance : pos 0 ≤ℤ get_balance sample_world.chain module_account
unfolding get_balance bytes_eq lookup
no_module_balance = omega arith

pub bob-IsUser : IsUser sample_env bob
unfolding bytes_eq
bob-IsUser = record {
  no_module = refl;
  module_no = refl;
  no_yield = refl;
  differ = refl;
  allowed = λ c. refl;
}

pub fits_up : fits256 (pos 62 +ℤ pos 4) ≡ true
unfolding fits256 ◌+ℤ◌
fits_up = refl

fits_down : fits256 (pos 62 -ℤ pos 4) ≡ true
unfolding fits256 ◌-ℤ◌
fits_down = refl

-- Bob is issued 6 at an index of 1.5: a principal of 4.
mint_lem_example :
    (w' : World Balances) × (p u : ℕ) × (mint sample_env bob (pos 6) none sample_world
      ≡ (ok tt, w'))
    × (get_principal_amount_rounded_down (pos 6) (pos 1_500_000_000_000) ≡ ok (pos p))
    × (get_principal_amount_rounded_up (pos 6) (pos 1_500_000_000_000) ≡ ok (pos u))
    × Totals w' (pos 60 +ℤ pos p) (pos (62 + u)) (pos 1_500_000_000_000)
    × (get_balance w'.chain bob ≡ get_balance sample_world.chain bob +ℤ pos 6)
    × (get_supply w'.chain ≡ pos 96)
    × (99 ≤ (62 + u) * 1_500_000_000_000 / 1_000_000_000_000)
mint_lem_example =
    mint_lem sample_env sample-IsBank bob 6 1_500_000_000_000 90 62 sample_world (pos 60)
      (omega arith) (omega arith) bob-IsUser no_module_balance fits_up sample-Totals
      supply_of_sample

bob_owns : pos 6 ≤ℤ get_balance sample_world.chain bob
unfolding get_balance bytes_eq lookup
bob_owns = omega arith

burn_lem_example :
    (w' : World Balances) × (u : ℕ) × (burn sample_env bob (pos 6) sample_world ≡ (ok tt, w'))
    × (get_principal_amount_rounded_up (pos 6) (pos 1_500_000_000_000) ≡ ok (pos u))
    × Totals w' (pos 60 -ℤ pos u) (pos (62 - u)) (pos 1_500_000_000_000)
    × (get_supply w'.chain ≡ pos 84)
    × (93 ≤ (62 - u) * 1_500_000_000_000 / 1_000_000_000_000 + 6 + (1 + 1))
burn_lem_example =
    burn_lem sample_env sample-IsBank bob 6 1_500_000_000_000 90 62 sample_world (pos 60)
      (omega arith) (omega arith) bob-IsUser bob_owns no_module_balance (omega arith) fits_down
      sample-Totals supply_of_sample (omega arith)

-- An index of 2, and what accrued stands in the yield account.
abbrev yield_account : Bytes
yield_account = codes "dollar/yield"

abbrev accrued_world : World Balances
accrued_world = record sample_world {
  dollar = record sample_dollar { index = some (pos 2_000_000_000_000) };
  chain = (alice, pos 60) ∷ (bob, pos 30) ∷ (yield_account, pos 34) ∷ [];
}

not_paused : get_paused accrued_world ≡ false
unfolding get_paused
not_paused = refl

bob_principal : principal_of bob accrued_world ≡ pos 20
unfolding principal_of lookup bytes_eq
bob_principal = refl

bob_balance : get_balance accrued_world.chain bob ≡ pos 30
unfolding get_balance lookup bytes_eq
bob_balance = refl

ten_fits : fits256 (pos 10) ≡ true
unfolding fits256
ten_fits = refl

bob-CanClaim : CanClaim sample_env bob
unfolding bytes_eq
bob-CanClaim = record { differ = refl; allowed = λ c. refl }

yield_funded : pos 10 ≤ℤ get_balance accrued_world.chain yield_account
unfolding get_balance bytes_eq lookup
yield_funded = omega arith

-- Bob has a principal of 20 and a balance of 30: the claim brings 10.
claim_yield_lem_example :
    (w' : World Balances) × (claim_yield sample_env bob accrued_world ≡ (ok tt, w'))
    × (get_balance w'.chain bob ≡ pos 40)
    × (get_yield sample_env bob w' ≡ (ok (pos 0, bob), w'))
    × (get_supply w'.chain ≡ get_supply accrued_world.chain)
    × (w'.dollar ≡ accrued_world.dollar)
claim_yield_lem_example =
    claim_yield_lem sample_env sample-IsBank bob bob 20 2_000_000_000_000 30 accrued_world
      not_paused refl refl bob_principal bob_balance (omega arith) ten_fits bob-CanClaim
      yield_funded
