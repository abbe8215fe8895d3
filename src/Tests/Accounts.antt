-- ===== src/Tests/Accounts.antt =====
-- Runs of the theorems on the names of accounts and on the end of the first season.
use dollar.Base.{◌≡◌, refl, [], ◌∷◌, arith}
use dollar.Base.Int.{pos}
use dollar.Base.Bytes.{codes}
use dollar.Base.Key.{bytes_key}
use dollar.Base.Map.{Map, lookup}
use dollar.Base.Map.Entries.{Distinct}
use dollar.Types.Store.{PositionKey, Position}
use dollar.State.Dollar.{or_zero}
use dollar.State.Vaults.{
  flexible, staked, get_vaults_positions, get_vaults_positions_by_provider_and_vault,
}
use dollar.Vaults.Account.{to_lower, to_user_vault_position_module_account}
use dollar.Vaults.Names.{to_user_vault_position_module_account-injective}
use dollar.Vaults.Unlock.{total_amount}
use dollar.Vaults.Season.{collect_users, sort_users}
use dollar.Vaults.Totals.{TextOf, collect_users-total_amount}
use dollar.Tests.Sample.{alice, bob, sample_env}

same_account :
    to_user_vault_position_module_account (codes "Alice") flexible (pos 400)
    ≡ to_user_vault_position_module_account alice flexible (pos 400)
unfolding to_user_vault_position_module_account to_lower
same_account = refl

to_user_vault_position_module_account-injective_example :
    (to_lower (codes "Alice") ≡ to_lower alice) × (pos 400 ≡ pos 400)
to_user_vault_position_module_account-injective_example =
    to_user_vault_position_module_account-injective (codes "Alice") alice (pos 400) (pos 400) refl
      refl (omega arith) (omega arith) same_account

abbrev held_position : Position
held_position = record {
  principal = pos 10;
  index = pos 1_200_000_000_000;
  amount = pos 12;
  time = pos 400;
}

-- Two flexible positions and a staked one of alice, and a flexible one of bob.
abbrev positions : Map PositionKey Position
positions =
    ((alice, (staked, pos 400)), held_position)
    ∷ ((alice, (flexible, pos 400)), held_position)
    ∷ ((alice, (flexible, pos 410)), held_position)
    ∷ ((bob, (flexible, pos 400)), held_position)
    ∷ []

alice-TextOf : TextOf sample_env alice alice
alice-TextOf b = ground arith

collect_users-total_amount_example :
    (or_zero
        (lookup alice (sort_users (collect_users sample_env (get_vaults_positions positions) [])))
      ≡ total_amount (get_vaults_positions_by_provider_and_vault alice flexible positions))
    × Distinct (sort_users (collect_users sample_env (get_vaults_positions positions) []))
collect_users-total_amount_example =
    collect_users-total_amount sample_env alice alice positions alice-TextOf
