-- ===== src/Tests/Locks.antt =====
-- Runs of the theorems on the checks of the vaults.
use dollar.Base.{◌≡◌, refl, [], ◌∷◌, arith}
use dollar.Base.Int.{pos, ◌+ℤ◌, ◌-ℤ◌, ◌*ℤ◌, quo}
use dollar.Base.Bytes.{bytes_eq}
use dollar.Base.Key.{int_key, bytes_key, pair_key}
use dollar.Base.Map.{has, lookup}
use dollar.Types.{ok}
use dollar.Types.Store.{World, PositionEntry}
use dollar.State.Vaults.{get_vaults_paused, staked, get_vaults_positions_by_provider_and_vault}
use dollar.Vaults.Account.{to_user_vault_position_module_account}
use dollar.Bank.{send_coins}
use dollar.Math.{quo_raw, get_principal_amount_rounded_down, get_principal_amount_rounded_up}
use dollar.Restriction.{send_restriction, move_principal, debit_sender, credit_recipient}
use dollar.State.Dollar.{increment_total_holders}
use dollar.Vaults.Lock.{check_lock}
use dollar.Vaults.Unlock.{
  position_account, total_amount, check_unlock, unlock_loop, unlock_position, amount_to_remove,
  shrink_position,
}
use dollar.Vaults.Guards.{unlock_loop_complete}
use dollar.Bank.Mock.{Balances, get_balance, move_coins}
use dollar.Tests.Sample.{alice, sample_env, sample_vaults, sample_world}

abbrev pub locking_world : World Balances
locking_world = record sample_world { chain = (alice, pos 3_000_000) ∷ [] }

lock_checked :
    check_lock sample_env alice staked (pos 2_000_000) locking_world ≡ (ok alice, locking_world)
unfolding check_lock get_vaults_paused has get_balance bytes_eq
lock_checked = refl

-- All of a staked position of 12.
abbrev held_position : PositionEntry
held_position = record {
  address = alice;
  vault = staked;
  principal = pos 10;
  index = pos 1_200_000_000_000;
  amount = pos 12;
  time = pos 400;
}

abbrev unlocking_world : World Balances
unlocking_world = record sample_world {
  vaults = record sample_vaults {
    positions =
        (
          (alice, (staked, pos 400)),
          record {
            principal = pos 10;
            index = pos 1_200_000_000_000;
            amount = pos 12;
            time = pos 400;
          },
        )
        ∷ [];
  };
  chain = (position_account sample_env alice staked held_position, pos 12) ∷ [];
}

unlock_checked :
    check_unlock sample_env alice staked (pos 12) unlocking_world
    ≡ (ok (alice, held_position ∷ []), unlocking_world)
unfolding check_unlock total_amount get_vaults_positions_by_provider_and_vault bytes_eq ◌+ℤ◌
unlock_checked = refl

abbrev unlocked : World Balances
unlocked =
    (unlock_loop sample_env alice alice staked (held_position ∷ []) (pos 12) (pos 0)
      unlocking_world).1

unlock_looped :
    unlock_loop sample_env alice alice staked (held_position ∷ []) (pos 12) (pos 0) unlocking_world
    ≡ (ok (pos 0, pos 10), unlocked)
unfolding unlock_loop unlock_position amount_to_remove shrink_position send_coins send_restriction
    move_principal debit_sender credit_recipient ◌+ℤ◌ ◌-ℤ◌ ◌*ℤ◌ quo quo_raw bytes_eq
    get_principal_amount_rounded_down get_principal_amount_rounded_up lookup
    to_user_vault_position_module_account get_balance increment_total_holders move_coins
unlock_looped = refl

unlock_loop_complete_example : pos 0 ≡ pos 0
unlock_loop_complete_example =
    unlock_loop_complete sample_env alice alice staked (pos 12) (pos 0) (pos 10)
      (held_position ∷ []) unlocking_world unlocking_world unlocked (omega arith, tt) unlock_checked
      unlock_looped
