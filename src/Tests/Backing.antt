-- ===== src/Tests/Backing.antt =====
-- Runs of the theorems on the books of the vaults: a lock of 2,000,000 and an unlock of 1,500,000.
use dollar.Base.{◌≡◌, refl, some, arith}
use dollar.Base.Int.{pos, ◌+ℤ◌, ◌-ℤ◌, ◌*ℤ◌, quo, fits256}
use dollar.Base.Bytes.{Bytes, bytes_eq, bytes_lt}
use dollar.Base.Map.{lookup, has, insert, remove}
use dollar.Base.Map.Laws.{weigh}
use dollar.Types.{ok}
use dollar.Types.Store.{World}
use dollar.Math.{
  quo_raw, get_present_amount, get_principal_amount_rounded_down, get_principal_amount_rounded_up,
}
use dollar.State.Dollar.{increment_total_holders, decrement_total_holders}
use dollar.State.Vaults.{
  flexible, get_vaults_paused, get_vaults_positions_by_provider_and_vault, increment_vault_users,
  increment_vault_total_principal, decrement_vault_total_principal,
  increment_flexible_total_distributed_rewards_principal,
}
use dollar.Restriction.{
  principal_of, set_principal, send_restriction, move_principal, debit_sender, credit_recipient,
}
use dollar.Bank.{send_coins, send_coins_from_module_to_account}
use dollar.Bank.Mock.{Balances, get_balance, move_coins}
use dollar.Yield.{get_yield, valid_yield, claim_module_yield}
use dollar.Vaults.Account.{to_user_vault_position_module_account}
use dollar.Vaults.Lock.{check_lock, record_position, add_total_flexible_principal, lock}
use dollar.Vaults.Rewards.{claim_rewards}
use dollar.Vaults.Unlock.{
  total_amount, check_unlock, unlock_loop, unlock_position, amount_to_remove, claim_flexible,
  shrink_position, settle_unlock, unlock_positions, unlock,
}
use dollar.Vaults.Backing.Unlocking.{IsBacked, unlock-IsBacked}
use dollar.Vaults.Backing.Locking.{lock-IsBacked}
use dollar.Vaults.Withdrawing.{held_by, lock-check_unlock}
use dollar.Tests.Sample.{alice, sample_env}
use dollar.Tests.Locks.{locking_world}

no_positions : IsBacked locking_world
unfolding lookup weigh
no_positions = record {
  distinct = tt;
  timed = λ key p e. cc;
  covering = λ key p e. cc;
  held = omega arith;
}

abbrev locked_world : World Balances
locked_world = (lock sample_env alice flexible (pos 2_000_000) locking_world).1

lock_run : lock sample_env alice flexible (pos 2_000_000) locking_world ≡ (ok tt, locked_world)
unfolding lock check_lock get_vaults_paused has get_balance bytes_eq send_coins send_restriction
    move_principal debit_sender credit_recipient ◌+ℤ◌ ◌-ℤ◌ ◌*ℤ◌ quo quo_raw lookup insert
    get_principal_amount_rounded_down get_principal_amount_rounded_up principal_of set_principal
    to_user_vault_position_module_account increment_total_holders decrement_total_holders move_coins
    record_position add_total_flexible_principal get_vaults_positions_by_provider_and_vault
    increment_vault_users increment_vault_total_principal
lock_run = refl

lock-IsBacked_example : IsBacked locked_world
lock-IsBacked_example =
    lock-IsBacked sample_env alice flexible (pos 2_000_000) 1_500_000_000_000 locking_world
      locked_world (omega arith) (omega arith) refl no_positions lock_run

abbrev unlocked_world : World Balances
unlocked_world = (unlock sample_env alice flexible (pos 1_500_000) locked_world).1

unlock_run : unlock sample_env alice flexible (pos 1_500_000) locked_world ≡ (ok tt, unlocked_world)
unfolding lock check_lock get_vaults_paused has get_balance bytes_eq send_coins send_restriction
    move_principal debit_sender credit_recipient ◌+ℤ◌ ◌-ℤ◌ ◌*ℤ◌ quo quo_raw lookup insert
    get_principal_amount_rounded_down get_principal_amount_rounded_up principal_of set_principal
    to_user_vault_position_module_account increment_total_holders decrement_total_holders move_coins
    record_position add_total_flexible_principal get_vaults_positions_by_provider_and_vault
    increment_vault_users increment_vault_total_principal unlock unlock_positions check_unlock
    total_amount unlock_loop unlock_position amount_to_remove claim_flexible claim_rewards
    increment_flexible_total_distributed_rewards_principal claim_module_yield get_yield valid_yield
    get_present_amount fits256 send_coins_from_module_to_account shrink_position settle_unlock
    decrement_vault_total_principal remove bytes_lt
unlock_run = refl

unlock-IsBacked_example : IsBacked unlocked_world
unlock-IsBacked_example =
    unlock-IsBacked sample_env alice flexible (pos 1_500_000) locked_world unlocked_world
      (lock-IsBacked sample_env alice flexible (pos 2_000_000) 1_500_000_000_000 locking_world
        locked_world (omega arith) (omega arith) refl no_positions lock_run)
      unlock_run

lock-check_unlock_example :
    (addr : Bytes) × (sample_env.string_to_bytes alice ≡ some addr)
    × (held_by addr flexible locked_world.vaults.positions
        ≡ held_by addr flexible locking_world.vaults.positions +ℤ pos 2_000_000)
    × (check_unlock sample_env alice flexible (pos 2_000_000) locked_world ≡ (
      ok (
        addr,
        get_vaults_positions_by_provider_and_vault addr flexible locked_world.vaults.positions,
      ),
      locked_world,
    ))
lock-check_unlock_example =
    lock-check_unlock sample_env alice flexible (pos 2_000_000) 1_500_000_000_000 locking_world
      locked_world (omega arith) refl no_positions (omega arith) (omega arith) lock_run
