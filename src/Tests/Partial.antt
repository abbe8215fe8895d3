-- ===== src/Tests/Partial.antt =====
-- A run of the theorem on the end of the first season with rewards that cannot be paid.
use dollar.Base.{◌≡◌, refl, some, [], ◌∷◌, arith}
use dollar.Base.Int.{ℤ, pos, ◌+ℤ◌, ◌-ℤ◌, ◌*ℤ◌, quo}
use dollar.Base.Bytes.{Bytes, bytes_eq, codes}
use dollar.Base.Map.{Map, lookup, insert}
use dollar.Base.Key.{int_key, bytes_key, pair_key}
use dollar.Base.Map.Laws.{weigh}
use dollar.Types.{ok, err, external}
use dollar.Types.Store.{World, PositionEntry}
use dollar.Math.{quo_raw, get_principal_amount_rounded_down, get_principal_amount_rounded_up}
use dollar.State.Dollar.{or_zero, increment_total_holders, decrement_total_holders}
use dollar.State.Vaults.{flexible, get_vaults_positions_by_provider_and_vault}
use dollar.Restriction.{
  principal_of, set_principal, send_restriction, move_principal, debit_sender, credit_recipient,
}
use dollar.Bank.{send_coins}
use dollar.Bank.Mock.{Balances, get_balance, move_coins}
use dollar.Vaults.Walk.{walk_rewards, visit_reward, user_reward}
use dollar.Vaults.Rewards.{claim_rewards, pay_rewards}
use dollar.Vaults.Unlock.{total_amount, check_unlock, amount_to_remove}
use dollar.Vaults.Season.{unlock_users}
use dollar.Vaults.Backing.Shrinking.{weight}
use dollar.Vaults.Backing.Unlocking.{IsBacked}
use dollar.Vaults.Backing.Partial.{lowered, unlock_users-partial}
use dollar.Tests.Sample.{alice, sample_env, sample_dollar, sample_vaults, sample_world}

-- A flexible position of 12, and a flexible vault that has rewards but no coins.
abbrev position : PositionEntry
position = record {
  address = alice;
  vault = flexible;
  principal = pos 10;
  index = pos 1_200_000_000_000;
  amount = pos 12;
  time = pos 400;
}

abbrev empty_vault : World Balances
empty_vault = record sample_world {
  dollar = record sample_dollar {
    principal = (codes "dollar/vaults/flexible", pos 30) ∷ sample_dollar.principal;
  };
  vaults = record sample_vaults {
    positions =
        (
          (alice, (flexible, pos 400)),
          record {
            principal = pos 10;
            index = pos 1_200_000_000_000;
            amount = pos 12;
            time = pos 400;
          },
        )
        ∷ [];
    total_flexible_principal = some (pos 10);
    rewards =
        (
          pos 1_300_000_000_000,
          record { index = pos 1_300_000_000_000; total = pos 30; rewards = pos 9 },
        )
        ∷ [];
  };
}

checked :
    check_unlock sample_env alice flexible (pos 12) empty_vault
    ≡ (ok (alice, position ∷ []), empty_vault)
unfolding check_unlock total_amount get_vaults_positions_by_provider_and_vault bytes_eq ◌+ℤ◌
checked = refl

principal_is :
    get_principal_amount_rounded_down (amount_to_remove position (pos 12)) position.index
    ≡ ok (pos 10)
unfolding get_principal_amount_rounded_down quo_raw quo ◌*ℤ◌ amount_to_remove
principal_is = refl

abbrev failed : World Balances
failed =
    (claim_rewards sample_env position (amount_to_remove position (pos 12))
      (lowered (pos 10) empty_vault)).1

claim_fails :
    claim_rewards sample_env position
      (amount_to_remove position (pos 12))
      (lowered (pos 10) empty_vault)
    ≡ (err external, failed)
unfolding claim_rewards principal_of lookup bytes_eq get_principal_amount_rounded_down quo_raw
    walk_rewards ◌*ℤ◌ ◌+ℤ◌ ◌-ℤ◌ quo send_coins send_restriction move_principal pay_rewards
    get_principal_amount_rounded_up debit_sender get_balance credit_recipient move_coins
    set_principal increment_total_holders decrement_total_holders user_reward visit_reward insert
    amount_to_remove
claim_fails = refl

exact :
    weigh weight empty_vault.vaults.positions ≡ or_zero empty_vault.vaults.total_flexible_principal
unfolding weigh ◌+ℤ◌
exact = refl

abbrev no_users : Map Bytes ℤ
no_users = []

unlock_users-partial_example :
    (unlock_users sample_env ((alice, pos 12) ∷ no_users) empty_vault
      ≡ unlock_users sample_env no_users failed)
    × (failed.vaults.positions ≡ empty_vault.vaults.positions)
    × (failed.vaults.total_flexible_principal ≡ some (pos 10 -ℤ pos 10))
    × (¬ IsBacked failed)
unlock_users-partial_example =
    unlock_users-partial sample_env alice alice (pos 12) (pos 10) position [] external empty_vault
      failed checked principal_is claim_fails no_users exact (omega arith)
