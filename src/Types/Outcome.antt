-- ===== src/Types/Outcome.antt =====
-- Errors and outcomes of a call. The registered errors are those of types/errors.go,
-- types/portal/errors.go and types/vaults/errors.go.
-- The registered errors, the store's not found, and what the code builds by `fmt.Errorf` or takes
-- from other modules. Wrapping keeps the error.
pub data Error : Type 0 where
  not_found overflow malformed external : Error
  invalid_authority paused decreasing_index : Error
  no_owner not_owner same_owner portal_paused invalid_peer invalid_bridge_path : Error
  invalid_message invalid_recipient : Error
  vaults_invalid_authority invalid_amount invalid_vault_type invalid_pause_type : Error
  action_paused : Error
  yield_transfer wrong_destination bad_address unknown_identifier routers ibc_disabled : Error
  invalid_request no_recipient : Error

-- A call returns a value or an error, or it panics.
pub data Result (A : Type 0) : Type 0 where
  ok : A → Result A
  err : Error → Result A
  panic : Result A

infixl 5 ◌>>=◌
abbrev pub ◌>>=◌ : {A B : Type 0} → Result A → (A → Result B) → Result B
ok a >>= f = f a
err e >>= f = err e
panic >>= f = panic
