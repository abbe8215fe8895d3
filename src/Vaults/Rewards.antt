-- ===== src/Vaults/Rewards.antt =====
-- keeper/msg_server_vaults.go: `ClaimRewards`.
use dollar.Base.{if◌then◌else◌}
use dollar.Base.Int.{ℤ, pos, is_positive}
use dollar.Types.{M, bad_address, pure, lift, gets, get_item, or_throw, ◌>>=◌, ◌>>◌}
use dollar.Types.Store.{World, PositionEntry, reward_claimed}
use dollar.Types.Env.{Env}
use dollar.Base.Bytes.{Bytes}
use dollar.Math.{get_principal_amount_rounded_down}
use dollar.Restriction.{principal_of}
use dollar.Bank.{send_coins}
use dollar.State.Names.{flexible_vault_name, flexible_vault_address, set_vaults, emit}
use dollar.Vaults.Walk.{walk_rewards}

module _ {Chain Decimal : Type 0} (env : Env Chain Decimal) where
  -- The part that runs when the flexible vault has rewards.
  unfoldable pub pay_rewards : Bytes → PositionEntry → ℤ → M (World Chain) ℤ
  pay_rewards user position amount = do
    current_index ← get_item (λ w. w.dollar.index)
    amount_principal ← lift (get_principal_amount_rounded_down amount position.index)
    (rewards, rewards_amount) ←
        λ w. (walk_rewards env position.index current_index amount_principal w.vaults.rewards, w)
    set_vaults (λ v. record v { rewards = rewards })
    coins ← lift (env.new_coins rewards_amount)
    send_coins env (env.new_module_address flexible_vault_name) position.address coins
    emit (reward_claimed user rewards_amount)
    pure rewards_amount

  unfoldable pub claim_rewards : PositionEntry → ℤ → M (World Chain) ℤ
  unfolding pay_rewards
  claim_rewards position amount = do
    user ← or_throw (env.bytes_to_string position.address) bad_address
    vault_rewards_principal ← gets (principal_of (flexible_vault_address env))
    (if is_positive vault_rewards_principal then pay_rewards user position amount else pure (pos 0))
