-- ===== src/Tests/Queries.antt =====
-- Runs of the theorems on the queries.
use dollar.Base.{◌≡◌, refl, true, [], ◌∷◌}
use dollar.Base.Int.{pos, ◌+ℤ◌, ◌-ℤ◌, ◌*ℤ◌, quo, is_positive}
use dollar.Base.Bytes.{bytes_eq, codes}
use dollar.Base.Map.{Map, lookup, insert}
use dollar.Types.{ok}
use dollar.Types.Store.{World, Reward, PositionEntry}
use dollar.Bank.{send_coins}
use dollar.Bank.Mock.{Balances, get_balance, move_coins}
use dollar.Math.{quo_raw, get_principal_amount_rounded_down, get_principal_amount_rounded_up}
use dollar.Restriction.{
  principal_of, send_restriction, move_principal, debit_sender, credit_recipient, set_principal,
}
use dollar.State.Names.{flexible_vault_address}
use dollar.State.Vaults.{flexible}
use dollar.Vaults.Walk.{walk_rewards, visit_reward, user_reward}
use dollar.State.Dollar.{increment_total_holders, decrement_total_holders}
use dollar.Vaults.Rewards.{pay_rewards, claim_rewards}
use dollar.Query.Rewards.{positions_rewards}
use dollar.Query.Pending.{claim_rewards-positions_rewards}
use dollar.Tests.Sample.{alice, sample_env, sample_dollar, sample_vaults, sample_world}
use dollar.Base.Int.{ℤ}

abbrev rewards : Map ℤ Reward
rewards =
    (
      pos 1_200_000_000_000,
      record { index = pos 1_200_000_000_000; total = pos 30; rewards = pos 9 },
    )
    ∷ []

-- A flexible position of 12, and a flexible vault with rewards.
abbrev position : PositionEntry
position = record {
  address = alice;
  vault = flexible;
  principal = pos 10;
  index = pos 1_100_000_000_000;
  amount = pos 12;
  time = pos 400;
}

abbrev rewarded_world : World Balances
rewarded_world = record sample_world {
  dollar = record sample_dollar {
    principal = (codes "dollar/vaults/flexible", pos 30) ∷ sample_dollar.principal;
  };
  vaults = record sample_vaults { rewards = rewards };
  chain = (codes "dollar/vaults/flexible", pos 60) ∷ sample_world.chain;
}

has_principal : is_positive (principal_of (flexible_vault_address sample_env) rewarded_world) ≡ true
unfolding principal_of lookup bytes_eq
has_principal = refl

abbrev after_claim : World Balances
after_claim = (claim_rewards sample_env position position.amount rewarded_world).1

claim-run :
    claim_rewards sample_env position position.amount rewarded_world ≡ (ok (pos 3), after_claim)
unfolding claim_rewards principal_of lookup bytes_eq get_principal_amount_rounded_down quo_raw
    walk_rewards ◌*ℤ◌ ◌+ℤ◌ ◌-ℤ◌ quo send_coins send_restriction move_principal pay_rewards
    get_principal_amount_rounded_up debit_sender get_balance credit_recipient move_coins
    set_principal increment_total_holders decrement_total_holders user_reward visit_reward insert
claim-run = refl

claim_rewards-positions_rewards_example :
    positions_rewards sample_env
      (pos 1_500_000_000_000)
      (position ∷ [])
      rewarded_world.vaults.rewards
    ≡ ok (pos 3, record { amount = position.amount; pending_rewards = pos 3 } ∷ [])
claim_rewards-positions_rewards_example =
    claim_rewards-positions_rewards sample_env alice position (pos 1_500_000_000_000) (pos 3)
      rewarded_world after_claim refl has_principal refl claim-run
