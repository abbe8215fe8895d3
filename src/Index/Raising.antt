-- ===== src/Index/Raising.antt =====
-- The index from its write in `UpdateIndex` (keeper/msg_server.go) to the end of the distribution.
use dollar.Base.Int.{ℤ, ◌+ℤ◌, ◌-ℤ◌, is_positive}
use dollar.Base.Key.{int_key}
use dollar.Base.Map.{insert}
use dollar.Types.{lift, gets, get_item, get_item-Preserves}
use dollar.Types.Store.{Vaults}
use dollar.Types.Env.{Env}
use dollar.Math.{scale}
use dollar.Bank.{send_coins_from_module_to_account}
use dollar.State.Names.{yield_name, staked_vault_address, flexible_vault_address, set_vaults}
use dollar.State.Dollar.{or_zero}
use dollar.Restriction.{principal_of, set_principal}
use dollar.Yield.{get_yield, no_yield_on_error, claim_module_yield}
use dollar.Index.Vaults.{
  redirect_staked_yield, claim_staked_vault_yield, handle_vaults_yield_season_one,
  handle_vaults_yield_season_two,
}
use dollar.Index.Keeping.{At, Keeps, At-IsStable}
use dollar.Types.Rules.{bind-Preserves, reads-Preserves, when-Preserves, if-Preserves}
use dollar.Bank.Keeping.{set_principal-Preserves, send_coins-Preserves, to_account-Preserves}
use dollar.Yield.Keeping.{yield_or_none-Preserves, claim_module_yield-Preserves}

module _ {Chain Decimal : Type 0} (env : Env Chain Decimal) (i : ℤ) where
  set_vaults-Keeps : (f : Vaults → Vaults) → Keeps i (set_vaults {Chain = Chain} f)
  set_vaults-Keeps f = record { keeps = λ w e. e }

  redirect_staked_yield-Keeps : (yield : ℤ) → Keeps i (redirect_staked_yield env yield)
  unfolding redirect_staked_yield
  redirect_staked_yield-Keeps yield =
      let staked = staked_vault_address env in
      let flexible = flexible_vault_address env in
      bind-Preserves (At i) {B = Unit {0}} (lift (env.new_coins yield)) (reads-Preserves (At i) _)
        (λ coins.
          bind-Preserves (At i) {B = Unit {0}}
            (send_coins_from_module_to_account env yield_name flexible coins)
            (to_account-Preserves env (At i) (At-IsStable i) yield_name flexible coins)
            (λ _.
              bind-Preserves (At i) {B = Unit {0}} (get_item (λ w. w.dollar.index))
                (get_item-Preserves (At i) _)
                (λ raw.
                  bind-Preserves (At i) {B = Unit {0}}
                    (lift (env.dec_quo_int (env.dec_from_int raw) scale)) (reads-Preserves (At i) _)
                    (λ index.
                      bind-Preserves (At i) {B = Unit {0}}
                        (lift (env.dec_quo (env.dec_from_int yield) index))
                        (reads-Preserves (At i) _)
                        (λ quotient.
                          let p = env.truncate_int quotient in
                          bind-Preserves (At i) {B = Unit {0}} (gets (principal_of staked))
                            (reads-Preserves (At i) _)
                            (λ n.
                              bind-Preserves (At i) {B = Unit {0}} (set_principal staked (n -ℤ p))
                                (set_principal-Preserves (At i) (At-IsStable i).untouched staked
                                  (n -ℤ p))
                                (λ _.
                                  bind-Preserves (At i) {B = Unit {0}}
                                    (gets (principal_of flexible)) (reads-Preserves (At i) _)
                                    (λ m.
                                      set_principal-Preserves (At i) (At-IsStable i).untouched
                                        flexible (m +ℤ p)))))))))

  claim_staked_vault_yield-Keeps : Keeps i (claim_staked_vault_yield env)
  unfolding claim_staked_vault_yield
  claim_staked_vault_yield-Keeps =
      bind-Preserves (At i) {B = ℤ}
        (λ w. no_yield_on_error (get_yield env (env.address_string (staked_vault_address env)) w))
        (yield_or_none-Preserves env (At i) _)
        (λ yield.
          if-Preserves (At i) (is_positive yield)
            (bind-Preserves (At i) {B = ℤ} (redirect_staked_yield env yield)
              (redirect_staked_yield-Keeps yield) (λ _. reads-Preserves (At i) _))
            (reads-Preserves (At i) _))

  pub handle_vaults_yield_season_one-Keeps :
      (raised : ℤ) → Keeps i (handle_vaults_yield_season_one env raised)
  unfolding handle_vaults_yield_season_one
  handle_vaults_yield_season_one-Keeps raised =
      bind-Preserves (At i) {B = Unit {0}} (claim_module_yield env (flexible_vault_address env))
        (claim_module_yield-Preserves env (At i) (At-IsStable i) _)
        (λ flexible_yield.
          bind-Preserves (At i) {B = Unit {0}} (claim_staked_vault_yield env)
            claim_staked_vault_yield-Keeps
            (λ staked_yield.
              bind-Preserves (At i) {B = Unit {0}}
                (gets (λ w. or_zero w.vaults.total_flexible_principal)) (reads-Preserves (At i) _)
                (λ total. set_vaults-Keeps (λ v. record v {
                  rewards =
                      insert raised
                        (record {
                          index = raised;
                          total = total;
                          rewards = staked_yield +ℤ flexible_yield;
                        })
                        v.rewards;
                }))))

  pub handle_vaults_yield_season_two-Keeps : Keeps i (handle_vaults_yield_season_two env)
  unfolding handle_vaults_yield_season_two
  handle_vaults_yield_season_two-Keeps =
      bind-Preserves (At i) {B = Unit {0}} (claim_module_yield env (staked_vault_address env))
        (claim_module_yield-Preserves env (At i) (At-IsStable i) _)
        (λ yield. when-Preserves (At i) (is_positive yield) (
          bind-Preserves (At i) {B = Unit {0}} (lift (env.new_coins yield))
            (reads-Preserves (At i) _)
            (λ coins. send_coins-Preserves env (At i) (At-IsStable i) _ _ coins)))
