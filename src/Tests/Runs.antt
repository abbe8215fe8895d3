-- ===== src/Tests/Runs.antt =====
-- A run of the theorem on runs of the send restriction.
use dollar.Base.{◌≡◌, refl, true, List, [], ◌∷◌, arith}
use dollar.Base.Int.{ℤ, pos, ◌+ℤ◌, ◌-ℤ◌, ◌≤ℤ◌, fits256}
use dollar.Math.Rounding.{up, down}
use dollar.Restriction.Totals.{Leaves}
use dollar.Restriction.Runs.{
  Step, transfer, raise, run, Ledger, stop, between, issue, withdraw, raised, run-Ledger_drift,
}
use dollar.Bank.Mock.{Balances}
use dollar.Tests.Sample.{alice, bob, sample_env, sample_world}
use dollar.Tests.Keeper.{
  module_account, sample-Totals, alice_no_yield, bob_no_yield, alice_no_module, bob_no_module,
  module_no_yield, module_is_module,
}

-- An issuance of 10 to bob, a raise of the index, a transfer to alice, and her withdrawal of 4.
abbrev steps : List (Step Balances)
steps =
    transfer module_account bob 10 (λ c. c)
    ∷ raise 1_600_000_000_000
    ∷ transfer bob alice 5 (λ c. c)
    ∷ transfer alice module_account 4 (λ c. c)
    ∷ []

-- 10 at the first index are 6 or 7 of principal, and 4 at the second one are 3.
abbrev held_after : ℤ
held_after = pos 60 +ℤ pos (down 10 1_500_000_000_000) -ℤ pos (up 4 1_600_000_000_000)

abbrev total_after : ℤ
total_after = pos 62 +ℤ pos (up 10 1_500_000_000_000) -ℤ pos (up 4 1_600_000_000_000)

issue_fits : fits256 (pos 62 +ℤ pos (up 10 1_500_000_000_000)) ≡ true
unfolding fits256 ◌+ℤ◌
issue_fits = refl

withdrawal_fits : fits256 total_after ≡ true
unfolding fits256 ◌+ℤ◌ ◌-ℤ◌
withdrawal_fits = refl

ledger :
    Ledger sample_env 1_500_000_000_000
      (pos 60)
      (pos 62)
      steps
      1_600_000_000_000
      held_after
      total_after
      1
ledger =
    issue (omega arith) module_no_yield bob_no_yield module_is_module bob_no_module issue_fits (
      raised (omega arith) (
        between (omega arith) bob_no_yield alice_no_yield bob_no_module alice_no_module (
          withdraw (omega arith) alice_no_yield module_no_yield alice_no_module module_is_module
            withdrawal_fits stop)))

run-Ledger_drift_example :
    Leaves (run sample_env steps) tt sample_world held_after total_after (pos 1_600_000_000_000)
    × (pos 62 -ℤ pos 60 ≤ℤ total_after -ℤ held_after)
    × (total_after -ℤ held_after ≤ℤ pos 62 -ℤ pos 60 +ℤ pos 1)
run-Ledger_drift_example =
    run-Ledger_drift sample_env 1_500_000_000_000 1_600_000_000_000 1 (pos 60) (pos 62) held_after
      total_after steps sample_world (omega arith) sample-Totals ledger
