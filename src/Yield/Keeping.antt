-- ===== src/Yield/Keeping.antt =====
-- What a module's claim of its yield (keeper/msg_server.go, `claimModuleYield`) leaves alone.
use dollar.Base.Int.{ℤ, ◌-ℤ◌, is_positive}
use dollar.Base.Bytes.{Bytes}
use dollar.Types.{
  M, Result, ok, err, panic, bad_address, lift, gets, get_item, or_throw, when, Preserves,
  get_item-Preserves, or_throw-Preserves, ◌>>=◌,
}
use dollar.Types.Rules.{bind-Preserves, reads-Preserves, when-Preserves}
use dollar.Types.Store.{World}
use dollar.Types.Env.{Env}
use dollar.Math.{get_present_amount}
use dollar.State.Names.{yield_name}
use dollar.Restriction.{principal_of, balance_of}
use dollar.Bank.{send_coins_from_module_to_account}
use dollar.Bank.Keeping.{IsStable, to_account-Preserves}
use dollar.Yield.{get_yield, valid_yield, no_yield_on_error, claim_module_yield}

module _ {Chain Decimal : Type 0} (env : Env Chain Decimal) (P : World Chain → Type 0) where
  get_yield-Preserves : (account : Bytes) → Preserves P (get_yield env account)
  unfolding get_yield
  get_yield-Preserves account =
      bind-Preserves P {B = ℤ × Bytes} (or_throw (env.string_to_bytes account) bad_address)
        (or_throw-Preserves P _ _)
        (λ bz.
          bind-Preserves P {B = ℤ × Bytes} (gets (principal_of bz)) (reads-Preserves P _)
            (λ principal.
              bind-Preserves P {B = ℤ × Bytes} (get_item (λ w. w.dollar.index))
                (get_item-Preserves P _)
                (λ index.
                  bind-Preserves P {B = ℤ × Bytes} (gets (balance_of env bz)) (reads-Preserves P _)
                    (λ balance.
                      bind-Preserves P {B = ℤ × Bytes} (lift (get_present_amount principal index))
                        (reads-Preserves P _)
                        (λ expected.
                          reads-Preserves P (λ _. ok (valid_yield (expected -ℤ balance), bz)))))))

  pub no_yield_on_error-Preserves :
      (m : M (World Chain) (ℤ × Bytes)) → Preserves P m → Preserves P (λ w. no_yield_on_error (m w))
  no_yield_on_error-Preserves m h = record { keeps = λ w p. go (m w) (h.keeps w p) }
    where
      go : (r : Result (ℤ × Bytes) × World Chain) → P r.1 → P (no_yield_on_error r).1
      go (ok a, w) p = p
      go (err x, w) p = p
      go (panic, w) p = p

  pub yield_or_none-Preserves :
      (account : Bytes) → Preserves P (λ w. no_yield_on_error (get_yield env account w))
  yield_or_none-Preserves account =
      no_yield_on_error-Preserves (get_yield env account) (get_yield-Preserves account)

  pub claim_module_yield-Preserves :
      IsStable P → (a : Bytes) → Preserves P (claim_module_yield env a)
  unfolding claim_module_yield
  claim_module_yield-Preserves stable a =
      bind-Preserves P {B = ℤ} (λ w. no_yield_on_error (get_yield env (env.address_string a) w))
        (yield_or_none-Preserves (env.address_string a))
        (λ yield.
          bind-Preserves P {B = ℤ}
            (when (is_positive yield) (
              lift (env.new_coins yield) >>= λ coins.
              send_coins_from_module_to_account env yield_name a coins))
            (when-Preserves P (is_positive yield) (
              bind-Preserves P {B = Unit {0}} (lift (env.new_coins yield)) (reads-Preserves P _)
                (λ coins. to_account-Preserves env P stable yield_name a coins)))
            (λ _. reads-Preserves P (λ _. ok yield)))
