-- ===== src/Vaults/Guards.antt =====
-- The checks of `Lock` and `unlock` (keeper/msg_server_vaults.go).
use dollar.Base.{◌≡◌, true, false, some, arith, ◌⊎◌, List}
use dollar.Base.Int.{ℤ, pos, ◌≤ℤ◌, ◌<ℤ◌}
use dollar.Base.Bytes.{Bytes}
use dollar.Base.Key.{int_key, bytes_key, pair_key}
use dollar.Base.Map.{has}
use dollar.Types.{ok}
use dollar.Types.Store.{World, PositionKey, PositionEntry}
use dollar.Types.Env.{Env}
use dollar.Vaults.Account.{vault_exists}
use dollar.Vaults.Lock.{check_lock}
use dollar.State.Vaults.{get_vaults_positions_by_provider_and_vault}
use dollar.Vaults.Unlock.{total_amount, check_unlock, unlock_loop}
use dollar.Vaults.Removal.{NonNegative, unlock_loop-left}

module _ {Chain Decimal : Type 0} (env : Env Chain Decimal) where
  -- A lock that passes the checks is of a valid signer, of at least the minimum amount and at most
  -- the signer's balance, in a vault that exists, and of no position that is there already; the
  -- checks write nothing.
  pub check_lock-accepts :
      (signer addr : Bytes) (vault amount : ℤ) (w w' : World Chain)
      → check_lock env signer vault amount w ≡ (ok addr, w')
      → (w' ≡ w)
        × (env.string_to_bytes signer ≡ some addr)
        × (env.vaults_minimum_lock ≤ℤ amount)
        × (amount ≤ℤ env.get_balance w.chain addr)
        × (vault_exists vault ≡ true)
        × (has {K = PositionKey} (addr, (vault, env.unix_time)) w.vaults.positions ≡ false)
  unfolding check_lock
  check_lock-accepts signer addr vault amount w w' e = ground arith

  -- An unlock that passes the checks is of a positive amount that the signer's positions hold, and
  -- of at least the minimum amount or of all that they hold; the positions are those of the
  -- signer in the vault, and the checks write nothing.
  pub check_unlock-accepts :
      (signer addr : Bytes) (vault amount : ℤ) (positions : List PositionEntry) (w w' : World Chain)
      → check_unlock env signer vault amount w ≡ (ok (addr, positions), w')
      → (w' ≡ w)
        × (positions ≡ get_vaults_positions_by_provider_and_vault addr vault w.vaults.positions)
        × (pos 0 <ℤ amount)
        × (amount ≤ℤ total_amount positions)
        × ((env.vaults_minimum_unlock ≤ℤ amount) ⊎ (amount ≡ total_amount positions))
  unfolding check_unlock
  check_unlock-accepts signer addr vault amount positions w w' e = ground arith

  -- After the checks of an unlock, over positions of amounts that are not negative, a loop that
  -- returns has removed the whole amount: the check of what is left, which follows it in the code,
  -- refuses nothing.
  pub unlock_loop_complete :
      (signer addr : Bytes) (vault amount r q : ℤ) (positions : List PositionEntry)
      (w w₁ w₂ : World Chain)
      → NonNegative positions
      → check_unlock env signer vault amount w ≡ (ok (addr, positions), w₁)
      → unlock_loop env addr signer vault positions amount (pos 0) w₁ ≡ (ok (r, q), w₂)
      → r ≡ pos 0
  unlock_loop_complete signer addr vault amount r q positions w w₁ w₂ h checked looped =
      let (_, _, positive, enough, _) =
        check_unlock-accepts signer addr vault amount positions w w₁ checked in
      (unlock_loop-left env addr signer vault positions amount (pos 0) r q w₁ w₂ h (omega arith)
          looped).0
        enough
