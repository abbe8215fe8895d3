-- ===== src/Vaults/Walk.antt =====
-- keeper/msg_server_vaults.go: the walk over the rewards in `ClaimRewards`.
use dollar.Base.{not, ◌&&◌, ◌||◌, [], ◌∷◌, if◌then◌else◌}
use dollar.Base.Int.{ℤ, pos, ◌+ℤ◌, ◌-ℤ◌, ltb_ℤ, eqb_ℤ, is_positive, is_negative}
use dollar.Base.Map.{Map}
use dollar.Types.{Result, ok}
use dollar.Types.Outcome.{◌>>=◌}
use dollar.Types.Store.{Reward}
use dollar.Types.Env.{Env}

module _ {Chain Decimal : Type 0} (env : Env Chain Decimal) where
  -- A user's part of one record; the record of the current index gives none yet.
  unfoldable pub user_reward : ℤ → ℤ → Reward → Result ℤ
  user_reward current_index amount_principal record' =
      if not (eqb_ℤ record'.index current_index) && not (is_negative record'.rewards)
      then (do
        share ← env.dec_quo (env.dec_from_int record'.rewards) (env.dec_from_int record'.total)
        ok (env.truncate_int (env.dec_mul_int share amount_principal)))
      else ok (pos 0)

  -- One record: the record that is left, and the user's part of it.
  unfoldable pub visit_reward : ℤ → ℤ → Reward → Result (Reward × ℤ)
  unfolding user_reward
  visit_reward current_index amount_principal r =
      if not (is_positive r.total) || not (is_positive r.rewards) then ok (r, pos 0) else (do
        reward ← user_reward current_index amount_principal r
        ok (
          record {
            index = r.index;
            total = r.total -ℤ amount_principal;
            rewards = r.rewards -ℤ reward;
          },
          reward,
        ))

  -- The records of later indices than `start`, in order: the records that are left, and the sum.
  unfoldable pub walk_rewards : ℤ → ℤ → ℤ → Map ℤ Reward → Result (Map ℤ Reward × ℤ)
  unfolding visit_reward
  walk_rewards start current_index amount_principal [] = ok ([], pos 0)
  walk_rewards start current_index amount_principal ((key, r) ∷ m) = do
    (r', reward) ←
        (if ltb_ℤ start key then visit_reward current_index amount_principal r else ok (r, pos 0))
    (m', total) ← walk_rewards start current_index amount_principal m
    ok ((key, r') ∷ m', reward +ℤ total)
