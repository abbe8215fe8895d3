-- ===== src/Tests/Vaults.antt =====
-- Runs of the theorems on the vaults.
use dollar.Base.{◌≡◌, refl, true, false, none, [], ◌∷◌, arith, ◌⊎◌}
use dollar.Base.Int.{ℤ, pos, ◌+ℤ◌, ◌-ℤ◌, ◌*ℤ◌, ◌≤ℤ◌, quo, is_zero, is_positive}
use dollar.Base.Bytes.{bytes_eq}
use dollar.Base.Key.{int_key, bytes_key, pair_key}
use dollar.Base.Map.{Map, lookup}
use dollar.Bank.{send_coins}
use dollar.Math.{quo_raw, get_principal_amount_rounded_down, get_principal_amount_rounded_up}
use dollar.Restriction.{send_restriction, move_principal, debit_sender, credit_recipient}
use dollar.Types.{ok}
use dollar.Types.Store.{World, VaultsStats, Reward, PositionEntry}
use dollar.Types.Env.{Env}
use dollar.State.Dollar.{increment_total_holders}
use dollar.State.Vaults.{staked, is_vaults_season_one_ended}
use dollar.Vaults.Account.{to_user_vault_position_module_account}
use dollar.Vaults.Walk.{walk_rewards}
use dollar.Vaults.Unlock.{
  unlock_position, amount_to_remove, shrink_position, total_amount, position_account, unlock_loop,
}
use dollar.Vaults.Season.{begin_blocker}
use dollar.Vaults.Removal.{unlock_loop-remaining}
use dollar.Vaults.Sharing.{Divides, left, walk_rewards-conserves}
use dollar.Vaults.Ending.{begin_blocker-once}
use dollar.Bank.Mock.{Balances, get_balance, move_coins}
use dollar.Tests.Sample.{alice, sample_env, sample_world}

scaled : (n : ℤ) → is_positive n ≡ true → is_zero (n *ℤ pos 1_000_000_000_000_000_000) ≡ false
unfolding ◌*ℤ◌
scaled n h = ground arith

sample-Divides : Divides sample_env
sample-Divides a n h = rw (scaled n h) (_, refl)

abbrev rewards : Map ℤ Reward
rewards =
    (pos 1_000, record { index = pos 1_000; total = pos 30; rewards = pos 9 })
    ∷ (pos 1_100, record { index = pos 1_100; total = pos 20; rewards = pos 5 })
    ∷ []

walk_rewards-conserves_example :
    (m' : Map ℤ Reward) × (n : ℤ) × (walk_rewards sample_env (pos 900) (pos 1_100) (pos 10) rewards
      ≡ ok (m', n))
    × (left m' +ℤ n ≡ left rewards)
walk_rewards-conserves_example =
    walk_rewards-conserves sample_env sample-Divides (pos 1_100) (pos 10) (pos 900) rewards

abbrev sample_stats : VaultsStats
sample_stats = record {
  flexible_total_principal = pos 0;
  flexible_total_users = 0;
  flexible_total_distributed_rewards_principal = none;
  staked_total_principal = pos 0;
  staked_total_users = 0;
}

-- After the end of the first season.
abbrev late_env : Env Balances ℤ
late_env = record sample_env { unix_time = pos 2_000 }

season_open : is_vaults_season_one_ended sample_world ≡ false
unfolding is_vaults_season_one_ended
season_open = refl

begin_blocker-once_example :
    (is_vaults_season_one_ended (begin_blocker late_env sample_world).1 ≡ true)
    × (begin_blocker late_env (begin_blocker late_env sample_world).1
        ≡ (ok tt, (begin_blocker late_env sample_world).1))
begin_blocker-once_example = begin_blocker-once late_env sample_world refl

-- A staked position of 12, of which 5 are removed.
abbrev position : PositionEntry
position = record {
  address = alice;
  vault = staked;
  principal = pos 10;
  index = pos 1_200_000_000_000;
  amount = pos 12;
  time = pos 400;
}

abbrev funded_world : World Balances
funded_world = record sample_world {
  chain = (position_account sample_env alice staked position, pos 12) ∷ [];
}

abbrev after : World Balances
after = (unlock_loop sample_env alice alice staked (position ∷ []) (pos 5) (pos 0) funded_world).1

unlock_loop-run :
    unlock_loop sample_env alice alice staked (position ∷ []) (pos 5) (pos 0) funded_world
    ≡ (ok (pos 0, pos 4), after)
unfolding unlock_loop unlock_position amount_to_remove shrink_position send_coins send_restriction
    move_principal debit_sender credit_recipient ◌+ℤ◌ ◌-ℤ◌ ◌*ℤ◌ quo quo_raw bytes_eq
    get_principal_amount_rounded_down get_principal_amount_rounded_up lookup
    to_user_vault_position_module_account get_balance increment_total_holders move_coins
unlock_loop-run = refl

unlock_loop-remaining_example :
    ((pos 5 ≤ℤ total_amount (position ∷ [])) × (pos 0 ≡ pos 0))
    ⊎ ((total_amount (position ∷ []) ≤ℤ pos 5) × (pos 0 +ℤ total_amount (position ∷ []) ≡ pos 5))
unlock_loop-remaining_example =
    unlock_loop-remaining sample_env alice alice staked (position ∷ []) (pos 5) (pos 0) (pos 0)
      (pos 4) funded_world after (omega arith, tt) (omega arith) unlock_loop-run
