-- ===== src/Vaults/Admin.antt =====
-- keeper/msg_server_vaults.go: `SetPausedState`.
use dollar.Base.{not, ◌&&◌, some}
use dollar.Base.Int.{ℤ, pos, leb_ℤ}
use dollar.Base.Bytes.{Bytes, bytes_eq}
use dollar.Types.{M, vaults_invalid_authority, invalid_pause_type, throw_if, ◌>>◌}
use dollar.Types.Store.{World, vaults_paused_state_updated}
use dollar.Types.Env.{Env}
use dollar.State.Names.{set_vaults, emit}
use dollar.State.Vaults.{all_paused}

module _ {Chain Decimal : Type 0} (env : Env Chain Decimal) where
  unfoldable pub set_paused_state : Bytes → ℤ → M (World Chain) (Unit {0})
  set_paused_state signer to_paused = do
    throw_if (not (bytes_eq signer env.authority)) vaults_invalid_authority
    throw_if (not (leb_ℤ (pos 0) to_paused && leb_ℤ to_paused all_paused)) invalid_pause_type
    set_vaults (λ v. record v { paused = some to_paused })
    emit (vaults_paused_state_updated to_paused)
