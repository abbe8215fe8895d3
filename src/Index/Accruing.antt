-- ===== src/Index/Accruing.antt =====
-- The bank's supply under the issuance of yield in `UpdateIndex` (keeper/msg_server.go).
use dollar.Base.{◌≡◌, false}
use dollar.Base.Bytes.{bytes_eq}
use dollar.Types.{ok}
use dollar.Types.Env.{Env}
use dollar.State.Names.{module_name, module_address, yield_address}

-- What the issuance of yield meets in the bank: the two accounts differ, and sends between them
-- are allowed.
pub record CanIssue {Chain Decimal : Type 0} (env : Env Chain Decimal) : Type 0 where
  pub differ : bytes_eq (module_address env) (yield_address env) ≡ false
  pub allowed : (c : Chain) → env.check_module_send module_name (yield_address env) c ≡ (ok tt, c)
