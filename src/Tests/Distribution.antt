-- ===== src/Tests/Distribution.antt =====
-- A run of the theorem on the yield of other chains.
use dollar.Base.{◌≡◌, refl, true, [], ◌∷◌}
use dollar.Base.Int.{ℤ, pos, ◌+ℤ◌, ◌-ℤ◌, ◌*ℤ◌, quo, is_positive, fits256}
use dollar.Base.Bytes.{Bytes, bytes_eq, codes}
use dollar.Base.Key.{int_key, bytes_key, pair_key}
use dollar.Base.Map.{lookup, insert}
use dollar.Base.Map.Entries.{Distinct}
use dollar.Types.{ok, err, external}
use dollar.Types.Store.{World}
use dollar.Types.Env.{Env}
use dollar.State.Dollar.{ibc, get_retry_amount}
use dollar.Yield.{claim_module_yield, get_yield, valid_yield}
use dollar.Bank.{send_coins, send_coins_from_module_to_account}
use dollar.Math.{get_present_amount, quo_raw}
use dollar.Restriction.{send_restriction, principal_of}
use dollar.Bank.Mock.{Balances, get_balance, move_coins}
use dollar.Tests.Sample.{sample_env, sample_dollar, sample_world}

-- Transfers over IBC fail.
abbrev pub failing_env : Env Balances ℤ
failing_env = record sample_env {
  ibc_transfer = λ hook channel amount sender receiver timeout w. (err external, w);
}

-- The escrow account has 100 of principal and of $USDN, of which 50 more are due.
abbrev pub escrow_world : World Balances
escrow_world = record sample_world {
  dollar = record sample_dollar { principal = (codes "escrow", pos 100) ∷ [] };
  chain = (codes "escrow", pos 100) ∷ (codes "dollar/yield", pos 80) ∷ [];
}

abbrev pub channel_0 : Bytes
channel_0 = codes "channel-0"

abbrev pub claimed_world : World Balances
claimed_world =
    (claim_module_yield failing_env (failing_env.escrow_address failing_env.transfer_port channel_0)
      escrow_world).1

pub claim-run :
    claim_module_yield failing_env
      (failing_env.escrow_address failing_env.transfer_port channel_0)
      escrow_world
    ≡ (ok (pos 50), claimed_world)
unfolding claim_module_yield get_yield valid_yield principal_of get_present_amount quo_raw fits256
    ◌-ℤ◌ ◌+ℤ◌ quo ◌*ℤ◌ get_balance send_coins_from_module_to_account send_coins send_restriction
    move_coins bytes_eq lookup insert
claim-run = refl

pub five_wait : get_retry_amount ibc channel_0 escrow_world ≡ pos 5
unfolding get_retry_amount lookup bytes_eq
five_wait = refl

pub one_key : Distinct escrow_world.dollar.retry_amounts
unfolding lookup
one_key = (refl, tt)

sum_positive : is_positive (pos 50 +ℤ pos 5) ≡ true
unfolding ◌+ℤ◌
sum_positive = refl
