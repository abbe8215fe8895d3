-- ===== src/Vaults/Lock.antt =====
-- keeper/msg_server_vaults.go: `Lock`.
use dollar.Base.{not, ◌&&◌, ◌||◌, some, ◌==◌, length}
use dollar.Base.Int.{ℤ, ◌+ℤ◌, ltb_ℤ, eqb_ℤ}
use dollar.Base.Bytes.{Bytes}
use dollar.Base.Key.{int_key, bytes_key, pair_key}
use dollar.Base.Map.{has, insert}
use dollar.Types.{
  M, action_paused, bad_address, invalid_amount, invalid_vault_type, pure, lift, gets, get_item,
  modify, throw_if, or_throw, when, ◌>>=◌, ◌>>◌,
}
use dollar.Types.Store.{World, PositionKey, position_locked}
use dollar.Types.Env.{Env}
use dollar.Math.{get_principal_amount_rounded_down}
use dollar.Bank.{send_coins}
use dollar.State.Names.{set_vaults, emit}
use dollar.State.Dollar.{or_zero}
use dollar.State.Vaults.{
  flexible, lock_paused, all_paused, get_vaults_paused, get_vaults_positions_by_provider_and_vault,
  increment_vault_users, increment_vault_total_principal,
}
use dollar.Vaults.Account.{to_user_vault_position_module_account, vault_exists}

module _ {Chain Decimal : Type 0} (env : Env Chain Decimal) where
  -- `VaultsTotalFlexiblePrincipal` changes by an amount.
  unfoldable pub add_total_flexible_principal : ℤ → M (World Chain) (Unit {0})
  add_total_flexible_principal amount = set_vaults (λ v. record v {
    total_flexible_principal = some (or_zero v.total_flexible_principal +ℤ amount);
  })

  -- The checks before anything is written: returns the signer's address.
  unfoldable pub check_lock : Bytes → ℤ → ℤ → M (World Chain) Bytes
  check_lock signer vault amount = do
    throw_if (eqb_ℤ vault flexible && ltb_ℤ env.vaults_season_one_end_timestamp env.unix_time)
        action_paused
    paused ← gets get_vaults_paused
    throw_if (eqb_ℤ paused all_paused || eqb_ℤ paused lock_paused) action_paused
    addr ← or_throw (env.string_to_bytes signer) bad_address
    throw_if (ltb_ℤ amount env.vaults_minimum_lock) invalid_amount
    throw_if (not (vault_exists vault)) invalid_vault_type
    taken ←
        gets (λ w.
          let key : PositionKey = (addr, (vault, env.unix_time)) in has key w.vaults.positions)
    throw_if taken invalid_vault_type
    balance ← gets (λ w. env.get_balance w.chain addr)
    throw_if (ltb_ℤ balance amount) invalid_amount
    pure addr

  -- The position, and the totals of its vault.
  unfoldable pub record_position : Bytes → ℤ → ℤ → ℤ → ℤ → M (World Chain) (Unit {0})
  unfolding add_total_flexible_principal
  record_position addr vault amount index principal = do
    set_vaults (λ v.
        let key : PositionKey = (addr, (vault, env.unix_time)) in
        record v {
          positions =
              insert key
                (record {
                  principal = principal;
                  index = index;
                  amount = amount;
                  time = env.unix_time;
                })
                v.positions;
        })
    when (eqb_ℤ vault flexible) (add_total_flexible_principal principal)
    positions ← gets (λ w. get_vaults_positions_by_provider_and_vault addr vault w.vaults.positions)
    when (length positions == 1) (increment_vault_users vault)
    increment_vault_total_principal vault principal

  unfoldable pub lock : Bytes → ℤ → ℤ → M (World Chain) (Unit {0})
  unfolding check_lock record_position
  lock signer vault amount = do
    addr ← check_lock signer vault amount
    let name = to_user_vault_position_module_account signer vault env.unix_time
    modify (λ w. record w { chain = env.set_module_account name w.chain })
    coins ← lift (env.new_coins amount)
    send_coins env addr (env.new_module_address name) coins
    index ← get_item (λ w. w.dollar.index)
    principal ← lift (get_principal_amount_rounded_down amount index)
    record_position addr vault amount index principal
    emit (position_locked signer vault index amount principal)
