-- ===== src/Index/Update.antt =====
-- keeper/msg_server.go: `UpdateIndex` and `Mint`.
use dollar.Base.{Option, none, some, if◌then◌else◌}
use dollar.Base.Int.{ℤ, pos, ◌-ℤ◌, leb_ℤ, is_positive}
use dollar.Base.Bytes.{Bytes}
use dollar.Types.{
  M, decreasing_index, pure, lift, gets, get_item, throw_if, skip, ignore, ◌>>=◌, ◌>>◌,
}
use dollar.Types.Store.{World, index_updated}
use dollar.Types.Env.{Env}
use dollar.Math.{get_present_amount}
use dollar.Bank.{mint_coins, send_coins_from_module_to_module, send_coins_from_module_to_account}
use dollar.State.Names.{module_name, yield_name, set_dollar, emit}
use dollar.State.Dollar.{get_total_principal, increment_total_yield_accrued}
use dollar.State.Vaults.{is_vaults_season_one_ended}
use dollar.Index.Vaults.{handle_vaults_yield_season_one, handle_vaults_yield_season_two}
use dollar.Index.External.{claim_external_yield_ibc, claim_external_yield_hyperlane}

module _ {Chain Decimal : Type 0} (env : Env Chain Decimal) where
  -- The yield that accrued is minted and kept in the yield account. Returns its amount.
  unfoldable pub accrue_yield : ℤ → ℤ → M (World Chain) ℤ
  accrue_yield total_principal raised = do
    current_supply ← gets (λ w. env.get_supply w.chain)
    expected_supply ← lift (get_present_amount total_principal raised)
    coins ← lift (env.new_coins (expected_supply -ℤ current_supply))
    (if is_positive coins
        then (do
          mint_coins env module_name coins
          send_coins_from_module_to_module env module_name yield_name coins
          increment_total_yield_accrued coins
          pure coins)
        else pure (pos 0))

  -- All that follows the check of the new index.
  unfoldable pub raise_index : ℤ → ℤ → M (World Chain) (Unit {0})
  raise_index old_index raised = do
    set_dollar (λ d. record d { index = some raised })
    total_principal ← get_total_principal
    yield ← accrue_yield total_principal raised
    ended ← gets is_vaults_season_one_ended
    (if ended
        then handle_vaults_yield_season_two env
        else handle_vaults_yield_season_one env raised)
    claim_external_yield_ibc env
    claim_external_yield_hyperlane env
    emit (index_updated old_index raised total_principal yield)

  unfoldable pub update_index : ℤ → M (World Chain) (Unit {0})
  update_index raised = do
    old_index ← get_item (λ w. w.dollar.index)
    throw_if (leb_ℤ raised old_index) decreasing_index
    raise_index old_index raised

  -- An error of the index update is dropped.
  unfoldable pub mint : Bytes → ℤ → Option ℤ → M (World Chain) (Unit {0})
  mint recipient amount raised = do
    elim raised [ none ↦ skip | some i ↦ ignore (update_index i) ]
    coins ← lift (env.new_coins amount)
    mint_coins env module_name coins
    send_coins_from_module_to_account env module_name recipient coins
