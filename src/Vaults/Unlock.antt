-- ===== src/Vaults/Unlock.antt =====
-- keeper/msg_server_vaults.go: `Unlock` and `unlock`.
use dollar.Base.{not, ◌&&◌, ◌||◌, some, List, [], ◌∷◌, ◌==◌, if◌then◌else◌, length}
use dollar.Base.Int.{ℤ, pos, ◌+ℤ◌, ◌-ℤ◌, ltb_ℤ, leb_ℤ, eqb_ℤ, is_positive, is_zero}
use dollar.Base.Bytes.{Bytes}
use dollar.Base.Key.{int_key, bytes_key, pair_key}
use dollar.Base.Map.{insert, remove}
use dollar.Types.{
  M, action_paused, bad_address, invalid_amount, invalid_vault_type, pure, lift, gets, throw_if,
  or_throw, when, ◌>>=◌, ◌>>◌,
}
use dollar.Types.Store.{World, PositionEntry, PositionKey, position_unlocked}
use dollar.Types.Env.{Env}
use dollar.Math.{get_principal_amount_rounded_down}
use dollar.Bank.{send_coins}
use dollar.State.Names.{set_vaults, emit}
use dollar.State.Dollar.{or_zero}
use dollar.State.Vaults.{
  flexible, unlock_paused, all_paused, get_vaults_paused,
  get_vaults_positions_by_provider_and_vault, decrement_vault_users,
  decrement_vault_total_principal, increment_flexible_total_distributed_rewards_principal,
}
use dollar.Yield.{claim_module_yield}
use dollar.Vaults.Account.{to_user_vault_position_module_account, vault_exists}
use dollar.Vaults.Rewards.{claim_rewards}

-- `totalPositions`
unfoldable pub total_amount : List PositionEntry → ℤ
total_amount [] = pos 0
total_amount (position ∷ positions) = position.amount +ℤ total_amount positions

abbrev pub key_of : PositionEntry → PositionKey
key_of position = (position.address, (position.vault, position.time))

-- The smaller of the position and what is still to be removed.
unfoldable pub amount_to_remove : PositionEntry → ℤ → ℤ
amount_to_remove position remaining =
    if ltb_ℤ remaining position.amount then remaining else position.amount

-- The position goes when all of it is removed, and shrinks otherwise.
unfoldable pub shrink_position :
    {Chain : Type 0} → PositionEntry → ℤ → ℤ → M (World Chain) (Unit {0})
shrink_position position removed principal_removed =
    if leb_ℤ position.amount removed
    then set_vaults (λ v. record v { positions = remove (key_of position) v.positions })
    else set_vaults (λ v. record v {
      positions =
          insert (key_of position)
            (record {
              principal = position.principal -ℤ principal_removed;
              index = position.index;
              amount = position.amount -ℤ removed;
              time = position.time;
            })
            v.positions;
    })

module _ {Chain Decimal : Type 0} (env : Env Chain Decimal) where
  abbrev pub position_account : Bytes → ℤ → PositionEntry → Bytes
  position_account signer vault position =
      env.new_module_address (to_user_vault_position_module_account signer vault position.time)

  -- What a flexible position earned: returns the amount to send.
  unfoldable pub claim_flexible : Bytes → ℤ → PositionEntry → ℤ → ℤ → M (World Chain) ℤ
  claim_flexible signer vault position removed principal_removed = do
    set_vaults (λ v. record v {
      total_flexible_principal = some (or_zero v.total_flexible_principal -ℤ principal_removed);
    })
    rewards ← claim_rewards env position removed
    increment_flexible_total_distributed_rewards_principal rewards
    yield ← claim_module_yield env (position_account signer vault position)
    pure (if is_positive yield then removed +ℤ yield else removed)

  -- One round of the loop: returns the principal that was removed.
  unfoldable pub unlock_position : Bytes → Bytes → ℤ → PositionEntry → ℤ → M (World Chain) ℤ
  unfolding claim_flexible shrink_position
  unlock_position addr signer vault position removed = do
    principal_removed ← lift (get_principal_amount_rounded_down removed position.index)
    amount_to_send ←
        (if eqb_ℤ vault flexible
          then claim_flexible signer vault position removed principal_removed
          else pure removed)
    coins ← lift (env.new_coins amount_to_send)
    send_coins env (position_account signer position.vault position) addr coins
    shrink_position position removed principal_removed
    emit (position_unlocked signer vault position.index amount_to_send principal_removed)
    pure principal_removed

  -- The loop over the positions: returns what is left to remove, and the principal removed.
  unfoldable pub unlock_loop :
      Bytes → Bytes → ℤ → List PositionEntry → ℤ → ℤ → M (World Chain) (ℤ × ℤ)
  unfolding unlock_position amount_to_remove
  unlock_loop addr signer vault [] remaining removed = pure (remaining, removed)
  unlock_loop addr signer vault (position ∷ positions) remaining removed =
      let amount = amount_to_remove position remaining in
      let rest = (do
        principal ← unlock_position addr signer vault position amount
        unlock_loop addr signer vault positions (remaining -ℤ amount) (removed +ℤ principal)) in
      if is_zero remaining then pure (remaining, removed) else rest

  -- An amount below the minimum is allowed only where it is all that is left.
  unfoldable pub check_unlock : Bytes → ℤ → ℤ → M (World Chain) (Bytes × List PositionEntry)
  check_unlock signer vault amount = do
    addr ← or_throw (env.string_to_bytes signer) bad_address
    throw_if (not (is_positive amount)) invalid_amount
    throw_if (not (vault_exists vault)) invalid_vault_type
    positions ← gets (λ w. get_vaults_positions_by_provider_and_vault addr vault w.vaults.positions)
    let total_positions = total_amount positions
    throw_if (ltb_ℤ total_positions amount) invalid_amount
    throw_if (ltb_ℤ amount env.vaults_minimum_unlock && not (eqb_ℤ total_positions amount))
        invalid_amount
    pure (addr, positions)

  -- The totals of the vault after the loop.
  unfoldable pub settle_unlock : Bytes → ℤ → ℤ → M (World Chain) (Unit {0})
  settle_unlock addr vault removed = do
    positions ← gets (λ w. get_vaults_positions_by_provider_and_vault addr vault w.vaults.positions)
    when (length positions == 0) (decrement_vault_users vault)
    decrement_vault_total_principal vault removed

  unfoldable pub unlock_positions : Bytes → ℤ → ℤ → M (World Chain) (Unit {0})
  unfolding check_unlock unlock_loop settle_unlock
  unlock_positions signer vault amount = do
    (addr, positions) ← check_unlock signer vault amount
    (remaining, removed) ← unlock_loop addr signer vault positions amount (pos 0)
    throw_if (not (is_zero remaining)) invalid_amount
    settle_unlock addr vault removed

  unfoldable pub unlock : Bytes → ℤ → ℤ → M (World Chain) (Unit {0})
  unfolding unlock_positions
  unlock signer vault amount = do
    throw_if (eqb_ℤ vault flexible && ltb_ℤ env.vaults_season_one_end_timestamp env.unix_time)
        action_paused
    paused ← gets get_vaults_paused
    throw_if (eqb_ℤ paused all_paused || eqb_ℤ paused unlock_paused) action_paused
    unlock_positions signer vault amount
