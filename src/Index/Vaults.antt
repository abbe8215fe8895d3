-- ===== src/Index/Vaults.antt =====
-- keeper/msg_server.go: the yield of the vaults when the index rises.
use dollar.Base.{if◌then◌else◌}
use dollar.Base.Int.{ℤ, pos, ◌+ℤ◌, ◌-ℤ◌, is_positive}
use dollar.Base.Key.{int_key}
use dollar.Base.Map.{insert}
use dollar.Types.{M, pure, lift, gets, get_item, when, ◌>>=◌, ◌>>◌}
use dollar.Types.Store.{World}
use dollar.Types.Env.{Env}
use dollar.Math.{scale}
use dollar.Restriction.{principal_of, set_principal}
use dollar.Bank.{send_coins, send_coins_from_module_to_account}
use dollar.State.Names.{yield_name, staked_vault_address, flexible_vault_address, set_vaults}
use dollar.State.Dollar.{or_zero}
use dollar.Yield.{get_yield, no_yield_on_error, claim_module_yield}

module _ {Chain Decimal : Type 0} (env : Env Chain Decimal) where
  -- The principal of the yield goes from the staked vault to the flexible one.
  unfoldable pub redirect_staked_yield : ℤ → M (World Chain) (Unit {0})
  unfolding principal_of set_principal
  redirect_staked_yield yield = do
    coins ← lift (env.new_coins yield)
    send_coins_from_module_to_account env yield_name (flexible_vault_address env) coins
    raw_index ← get_item (λ w. w.dollar.index)
    index ← lift (env.dec_quo_int (env.dec_from_int raw_index) scale)
    quotient ← lift (env.dec_quo (env.dec_from_int yield) index)
    let yield_principal = env.truncate_int quotient
    staked_principal ← gets (principal_of (staked_vault_address env))
    set_principal (staked_vault_address env) (staked_principal -ℤ yield_principal)
    flexible_principal ← gets (principal_of (flexible_vault_address env))
    set_principal (flexible_vault_address env) (flexible_principal +ℤ yield_principal)

  unfoldable pub claim_staked_vault_yield : M (World Chain) ℤ
  unfolding redirect_staked_yield
  claim_staked_vault_yield = do
    yield ← λ w. no_yield_on_error (get_yield env (env.address_string (staked_vault_address env)) w)
    (if is_positive yield then (do redirect_staked_yield yield; pure yield) else pure (pos 0))

  unfoldable pub handle_vaults_yield_season_one : ℤ → M (World Chain) (Unit {0})
  handle_vaults_yield_season_one raised = do
    flexible_yield ← claim_module_yield env (flexible_vault_address env)
    staked_yield ← claim_staked_vault_yield
    total_flexible_principal ← gets (λ w. or_zero w.vaults.total_flexible_principal)
    set_vaults (λ v. record v {
      rewards =
          insert raised
            (record {
              index = raised;
              total = total_flexible_principal;
              rewards = staked_yield +ℤ flexible_yield;
            })
            v.rewards;
    })

  unfoldable pub handle_vaults_yield_season_two : M (World Chain) (Unit {0})
  handle_vaults_yield_season_two = do
    yield ← claim_module_yield env (staked_vault_address env)
    when (is_positive yield) (do
      coins ← lift (env.new_coins yield)
      send_coins env (staked_vault_address env) env.vaults_season_two_yield_collector coins)
