-- ===== src/Recipients.antt =====
-- keeper/msg_server_v2.go: `SetYieldRecipient`.
use dollar.Base.{Bool, true, false, not, Option, none, some, if◌then◌else◌}
use dollar.Base.Int.{ℤ, eqb_ℤ}
use dollar.Base.Bytes.{Bytes, bytes_eq}
use dollar.Base.Key.{int_key, bytes_key, pair_key}
use dollar.Base.Map.{insert}
use dollar.Types.{
  M, invalid_authority, unknown_identifier, bad_address, gets, or_throw, throw_if, skip, ◌>>=◌,
  ◌>>◌,
}
use dollar.Types.Store.{World, YieldKey, yield_recipient_set}
use dollar.Types.Env.{Env}
use dollar.State.Names.{set_dollar, emit}
use dollar.State.Dollar.{ibc, hyperlane}
use dollar.Index.External.{get_hyperlane_router}

abbrev pub is_some : {A : Type 0} → Option A → Bool
is_some none = false
is_some (some a) = true

module _ {Chain Decimal : Type 0} (env : Env Chain Decimal) where
  unfoldable pub check_hyperlane : Bytes → M (World Chain) (Unit {0})
  check_hyperlane identifier = do
    raw_identifier ← or_throw (env.decode_hex_address identifier) bad_address
    let token_id = env.internal_id raw_identifier
    known ← gets (λ w. is_some (env.hyp_token w.chain token_id))
    throw_if (not known) unknown_identifier
    get_hyperlane_router env token_id >>= λ _. skip

  -- A provider that is neither is not checked.
  unfoldable pub check_identifier : ℤ → Bytes → M (World Chain) (Unit {0})
  unfolding check_hyperlane
  check_identifier provider identifier =
      if eqb_ℤ provider ibc
      then (do
        found ← gets (λ w. env.has_channel w.chain identifier)
        throw_if (not found) unknown_identifier)
      else if eqb_ℤ provider hyperlane
      then check_hyperlane identifier
      else skip

  unfoldable pub set_yield_recipient : Bytes → ℤ → Bytes → Bytes → M (World Chain) (Unit {0})
  unfolding check_identifier
  set_yield_recipient signer provider identifier recipient = do
    throw_if (not (bytes_eq signer env.authority)) invalid_authority
    check_identifier provider identifier
    set_dollar (λ d.
        let key : YieldKey = (provider, identifier) in
        record d { yield_recipients = insert key recipient d.yield_recipients })
    emit (yield_recipient_set provider identifier recipient)
