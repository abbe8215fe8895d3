-- ===== src/Query/Rewards.antt =====
-- keeper/query_server_vaults.go: the loops over the rewards.
use dollar.Base.{not, ◌||◌, ◌&&◌, List, [], ◌∷◌, if◌then◌else◌}
use dollar.Base.Int.{ℤ, pos, ◌+ℤ◌, ltb_ℤ, eqb_ℤ, is_positive, is_negative}
use dollar.Base.Map.{Map}
use dollar.Types.{Result, ok}
use dollar.Types.Outcome.{◌>>=◌}
use dollar.Types.Store.{PositionEntry, Reward}
use dollar.Types.Env.{Env}
use dollar.Math.{get_principal_amount_rounded_down}

pub record PositionRewards : Type 0 where
  pub amount : ℤ
  pub pending_rewards : ℤ

-- The sum of what is left in all records.
unfoldable pub total_rewards : List Reward → ℤ
total_rewards [] = pos 0
total_rewards (reward ∷ rewards) = reward.rewards +ℤ total_rewards rewards

module _ {Chain Decimal : Type 0} (env : Env Chain Decimal) where
  -- One round of the walk over the rewards: the part of one position in one record, by the formula
  -- that the claim has as well.
  unfoldable pub pending_reward : ℤ → ℤ → Reward → Result ℤ
  pending_reward current_index amount_principal r =
      if not (is_positive r.total) || not (is_positive r.rewards)
      then ok (pos 0)
      else if not (eqb_ℤ r.index current_index) && not (is_negative r.rewards)
      then (do
        share ← env.dec_quo (env.dec_from_int r.rewards) (env.dec_from_int r.total)
        ok (env.truncate_int (env.dec_mul_int share amount_principal)))
      else ok (pos 0)

  unfoldable pub position_rewards : ℤ → ℤ → ℤ → Map ℤ Reward → Result ℤ
  unfolding pending_reward
  position_rewards start current_index amount_principal [] = ok (pos 0)
  position_rewards start current_index amount_principal ((key, r) ∷ m) = do
    reward ←
        (if ltb_ℤ start key then pending_reward current_index amount_principal r else ok (pos 0))
    total ← position_rewards start current_index amount_principal m
    ok (reward +ℤ total)

  -- The loop over the positions.
  unfoldable pub positions_rewards :
      ℤ → List PositionEntry → Map ℤ Reward → Result (ℤ × List PositionRewards)
  unfolding position_rewards
  positions_rewards current_index [] rewards = ok (pos 0, [])
  positions_rewards current_index (position ∷ positions) rewards = do
    amount_principal ← get_principal_amount_rounded_down position.amount position.index
    pending ← position_rewards position.index current_index amount_principal rewards
    (total, entries) ← positions_rewards current_index positions rewards
    ok (pending +ℤ total, record { amount = position.amount; pending_rewards = pending } ∷ entries)
