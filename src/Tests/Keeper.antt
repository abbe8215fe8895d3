-- ===== src/Tests/Keeper.antt =====
-- Runs of the theorems on the send restriction, the rounding, the yield and the index.
use dollar.Base.{ℕ, ◌≡◌, ◌≢◌, ◌≤◌, ◌+◌, ◌*◌, ◌/◌, ◌⊎◌, ◌↔◌, refl, true, false, some, [], ◌∷◌, arith}
use dollar.Base.Int.{ℤ, pos, ◌+ℤ◌, ◌-ℤ◌, ◌*ℤ◌, quo, fits256}
use dollar.Base.Bytes.{Bytes, bytes_eq, codes}
use dollar.Base.Map.{lookup}
use dollar.Base.Map.Laws.{sum}
use dollar.Types.{ok, panic, skip, ◌>>=◌}
use dollar.Types.Env.{Env}
use dollar.Index.Keeping.{At}
use dollar.Types.Rules.{bind-Preserves}
use dollar.Types.Store.{World}
use dollar.Math.{
  get_principal_amount_rounded_up, get_principal_amount_rounded_down, get_present_amount, quo_raw,
}
use dollar.Math.Rounding.{rounded_up_least, rounded_down_covered}
use dollar.State.Names.{module_address, yield_address}
use dollar.Restriction.{send_restriction, principal_of}
use dollar.Restriction.Totals.{Totals, Leaves}
use dollar.Restriction.Moves.{
  send_restriction-users, send_restriction-issue, send_restriction-withdraw,
}
use dollar.Yield.{get_yield}
use dollar.Yield.Claim.{get_yield-bounds}
use dollar.Index.Update.{update_index}
use dollar.Index.Refusal.{NegativePanics, update_index-panics}
use dollar.Index.Distributing.{TransfersKeep}
use dollar.Index.Monotone.{update_index-index}
use dollar.Bank.Mock.{Balances, get_balance, get_supply}
use dollar.Tests.Sample.{alice, bob, sample_env, sample_dollar, sample_world}

abbrev pub module_account : Bytes
module_account = codes "dollar"

abbrev yield_account : Bytes
yield_account = codes "dollar/yield"

pub sample-Totals : Totals sample_world (pos 60) (pos 62) (pos 1_500_000_000_000)
unfolding sum ◌+ℤ◌
sample-Totals = record {
  stats = record { total_holders = 2; total_principal = pos 62; total_yield_accrued = pos 0 };
  has_stats = refl;
  of_total = refl;
  of_held = refl;
  of_index = refl;
}

pub alice_no_yield : bytes_eq alice (yield_address sample_env) ≡ false
unfolding bytes_eq
alice_no_yield = refl

pub bob_no_yield : bytes_eq bob (yield_address sample_env) ≡ false
unfolding bytes_eq
bob_no_yield = refl

pub alice_no_module : bytes_eq alice (module_address sample_env) ≡ false
unfolding bytes_eq
alice_no_module = refl

pub bob_no_module : bytes_eq bob (module_address sample_env) ≡ false
unfolding bytes_eq
bob_no_module = refl

pub module_no_yield : bytes_eq module_account (yield_address sample_env) ≡ false
unfolding bytes_eq
module_no_yield = refl

pub module_is_module : bytes_eq module_account (module_address sample_env) ≡ true
unfolding bytes_eq
module_is_module = refl

yield_is_yield : bytes_eq yield_account (yield_address sample_env) ≡ true
unfolding bytes_eq
yield_is_yield = refl

sum_fits : fits256 (pos 62 +ℤ pos 7) ≡ true
unfolding fits256 ◌+ℤ◌
sum_fits = refl

difference_fits : fits256 (pos 62 -ℤ pos 7) ≡ true
unfolding fits256 ◌-ℤ◌
difference_fits = refl

send_restriction-users_example :
    Leaves
      (send_restriction sample_env alice bob (pos 10))
      bob
      sample_world
      (pos 60)
      (pos 62)
      (pos 1_500_000_000_000)
send_restriction-users_example =
    send_restriction-users sample_env alice bob 10 1_500_000_000_000 sample_world (pos 60) (pos 62)
      (omega arith) (omega arith) alice_no_yield bob_no_yield alice_no_module bob_no_module
      sample-Totals

send_restriction-issue_example :
    (p d : ℕ) × (get_principal_amount_rounded_down (pos 10) (pos 1_500_000_000_000) ≡ ok (pos p))
    × (d ≤ 1)
    × Leaves
        (send_restriction sample_env module_account bob (pos 10))
        bob
        sample_world
        (pos 60 +ℤ pos p)
        (pos 62 +ℤ pos (p + d))
        (pos 1_500_000_000_000)
send_restriction-issue_example =
    send_restriction-issue sample_env module_account bob 10 1_500_000_000_000 sample_world (pos 60)
      (pos 62) (omega arith) (omega arith) module_no_yield bob_no_yield module_is_module
      bob_no_module sum_fits sample-Totals

send_restriction-withdraw_example :
    (p : ℕ) × (get_principal_amount_rounded_up (pos 10) (pos 1_500_000_000_000) ≡ ok (pos p))
    × Leaves
        (send_restriction sample_env alice module_account (pos 10))
        module_account
        sample_world
        (pos 60 -ℤ pos p)
        (pos 62 -ℤ pos p)
        (pos 1_500_000_000_000)
send_restriction-withdraw_example =
    send_restriction-withdraw sample_env alice module_account 10 1_500_000_000_000 sample_world
      (pos 60) (pos 62) (omega arith) (omega arith) alice_no_yield module_no_yield alice_no_module
      module_is_module difference_fits sample-Totals

rounded_up_least_example :
    (u x : ℕ) × (get_principal_amount_rounded_up (pos 10) (pos 1_500_000_000_000) ≡ ok (pos u))
    × (get_present_amount (pos 6) (pos 1_500_000_000_000) ≡ ok (pos x))
    × ((10 ≤ x) ↔ (u ≤ 6))
rounded_up_least_example = rounded_up_least 10 1_500_000_000_000 6 (omega arith)

rounded_down_covered_example :
    (n u x : ℕ) × (get_principal_amount_rounded_down (pos 10) (pos 1_500_000_000_000) ≡ ok (pos n))
    × (get_principal_amount_rounded_up (pos 10) (pos 1_500_000_000_000) ≡ ok (pos u))
    × (get_present_amount (pos n) (pos 1_500_000_000_000) ≡ ok (pos x))
    × (x ≤ 10)
    × ((u ≡ n) ⊎ (u ≡ n + 1))
rounded_down_covered_example = rounded_down_covered 10 1_500_000_000_000 (omega arith)

bob_principal : principal_of bob sample_world ≡ pos 20
unfolding principal_of lookup bytes_eq
bob_principal = refl

bob_balance : sample_env.get_balance sample_world.chain bob ≡ pos 30
unfolding get_balance lookup bytes_eq
bob_balance = refl

get_yield-bounds_example :
    (n : ℕ) × (get_yield sample_env bob sample_world ≡ (ok (pos n, bob), sample_world))
    × (n ≢ 1)
    × ((n ≡ 0) ⊎ (n + 30 ≡ 20 * 1_500_000_000_000 / 1_000_000_000_000))
get_yield-bounds_example =
    get_yield-bounds sample_env bob bob 20 1_500_000_000_000 30 sample_world refl refl bob_principal
      bob_balance

-- A transfer over IBC moves principal through the restriction; one over Hyperlane does nothing.
abbrev restricted_env : Env Balances ℤ
restricted_env = record sample_env {
  ibc_transfer = λ hook channel n sender receiver timeout. hook alice bob n >>= λ _. skip;
}

restricted_transfers : (i : ℤ) → TransfersKeep restricted_env i
restricted_transfers i = record {
  ibc_keeps = λ hook h channel n sender receiver timeout.
      bind-Preserves (At i) {B = Unit {0}} (hook alice bob n) (h alice bob n)
        (λ _. record { keeps = λ w e. e });
  hyperlane_keeps = λ hook h token sender domain recipient n. record { keeps = λ w e. e };
}

update_index-index_example :
    (update_index restricted_env (pos 1_600_000_000_000) sample_world).1.dollar.index
    ≡ some (pos 1_600_000_000_000)
update_index-index_example =
    update_index-index restricted_env (pos 1_500_000_000_000) (pos 1_600_000_000_000) sample_world
      (restricted_transfers (pos 1_600_000_000_000)) refl

-- More coins than the principals call for.
abbrev rich_world : World Balances
rich_world = record sample_world { chain = (alice, pos 200) ∷ (bob, pos 30) ∷ [] }

rich_supply : get_supply rich_world.chain ≡ pos 230
unfolding get_supply sum ◌+ℤ◌
rich_supply = refl

present_99 : get_present_amount (pos 62) (pos 1_600_000_000_000) ≡ ok (pos 99)
unfolding get_present_amount quo_raw quo ◌*ℤ◌
present_99 = refl

negative_panics : NegativePanics sample_env
negative_panics n h = rw h refl

update_index-panics_example : update_index sample_env (pos 1_600_000_000_000) rich_world ≡ (
  panic,
  record rich_world { dollar = record sample_dollar { index = some (pos 1_600_000_000_000) } },
)
update_index-panics_example =
    update_index-panics sample_env (pos 1_500_000_000_000) (pos 1_600_000_000_000) rich_world
      (record { total_holders = 2; total_principal = pos 62; total_yield_accrued = pos 0 }) (pos 99)
      (pos 230) refl (omega arith) refl present_99 rich_supply (omega arith) negative_panics
