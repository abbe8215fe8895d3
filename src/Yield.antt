-- ===== src/Yield.antt =====
-- Yield: `GetYield` of keeper/keeper.go, and the handlers and utilities of keeper/msg_server.go
-- that mint, burn, claim and distribute it.
pub mod Claim
pub mod Keeping
pub mod Burning
pub mod Claiming
use dollar.Base.{
  ℕ, ◌+◌, ◌%◌, ◌^◌, Bool, true, false, not, ◌||◌, Option, none, some, List, [], ◌∷◌, ltb,
  if◌then◌else◌, Bool-cases,
}
use dollar.Base.Int.{ℤ, pos, ◌+ℤ◌, ◌-ℤ◌, eqb_ℤ, leb_ℤ, is_positive, is_negative, fits256}
use dollar.Base.Bytes.{Bytes, bytes_eq, bytes_lt}
use dollar.Base.Key.{bytes_key, int_key}
use dollar.Base.Map.{Map, lookup, insert}
use dollar.Types.{
  M, Result, ok, err, panic, Error, paused, decreasing_index, bad_address, vaults_invalid_authority,
  routers, external, pure, throw, lift, gets, get_item, throw_if, or_throw, when, skip, ignore,
  ◌>>=◌, ◌>>◌, bind,
}
use dollar.Types.Store.{
  World, Dollar, Vaults, Event, yield_claimed, dollar_paused, dollar_unpaused, index_updated,
}
use dollar.Types.Env.{Env, HypToken}
use dollar.Math.{get_present_amount, scale}
use dollar.Restriction.{principal_of, set_principal, balance_of, send_restriction}
use dollar.Bank.{
  send_coins, send_coins_from_account_to_module, send_coins_from_module_to_account,
  send_coins_from_module_to_module, mint_coins, burn_coins,
}
use dollar.State.Names.{
  module_name, yield_name, module_address, yield_address, staked_vault_address,
  flexible_vault_address, set_dollar, set_vaults, emit,
}
use dollar.State.Dollar.{
  ibc, hyperlane, or_zero, get_paused, get_total_principal, increment_total_yield_accrued,
  increment_total_external_yield, get_yield_recipients_by_provider, get_retry_amount_and_remove,
  increment_retry_amount,
}
use dollar.State.Vaults.{is_vaults_season_one_ended}

-- A difference of 1, below 0, or beyond 256 bits is no yield.
unfoldable pub valid_yield : ℤ → ℤ
valid_yield difference =
    if not (fits256 difference) || (eqb_ℤ difference (pos 1) || is_negative difference)
    then pos 0
    else difference

-- An error of `GetYield` counts as no yield.
abbrev pub no_yield_on_error : {W : Type 0} → Result (ℤ × Bytes) × W → Result ℤ × W
no_yield_on_error (ok (yield, _), w) = (ok yield, w)
no_yield_on_error (err e, w) = (ok (pos 0), w)
no_yield_on_error (panic, w) = (panic, w)

module _ {Chain Decimal : Type 0} (env : Env Chain Decimal) where
  -- Returns the yield and the account's bytes.
  unfoldable pub get_yield : Bytes → M (World Chain) (ℤ × Bytes)
  unfolding principal_of valid_yield
  get_yield account = do
    bz ← or_throw (env.string_to_bytes account) bad_address
    principal ← gets (principal_of bz)
    index ← get_item (λ w. w.dollar.index)
    current_balance ← gets (balance_of env bz)
    expected_balance ← lift (get_present_amount principal index)
    pure (valid_yield (expected_balance -ℤ current_balance), bz)

  unfoldable pub claim_yield : Bytes → M (World Chain) (Unit {0})
  claim_yield signer = do
    is_paused ← gets get_paused
    throw_if is_paused paused
    (yield, account) ← get_yield signer
    coins ← lift (env.new_coins yield)
    send_coins_from_module_to_account env yield_name account coins
    emit (yield_claimed signer yield)

  unfoldable pub set_paused_state : Bytes → Bool → M (World Chain) (Unit {0})
  set_paused_state signer to_paused = do
    throw_if (not (bytes_eq signer env.authority)) vaults_invalid_authority
    set_dollar (λ d. record d { paused = some to_paused })
    emit (if to_paused then dollar_paused else dollar_unpaused)

  unfoldable pub burn : Bytes → ℤ → M (World Chain) (Unit {0})
  burn sender amount = do
    coins ← lift (env.new_coins amount)
    send_coins_from_account_to_module env sender module_name coins
    burn_coins env module_name coins

  unfoldable pub claim_module_yield : Bytes → M (World Chain) ℤ
  claim_module_yield addr = do
    yield ← λ w. no_yield_on_error (get_yield (env.address_string addr) w)
    when (is_positive yield) (do
      coins ← lift (env.new_coins yield)
      send_coins_from_module_to_account env yield_name addr coins)
    pure yield
