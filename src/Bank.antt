-- ===== src/Bank.antt =====
-- How the bank and the keeper call one another: every send of coins runs the keeper's restriction.
-- What the bank does around it is a parameter; utils/mocks/bank.go is one instance.
pub mod Mock
pub mod Keeping
pub mod Laws
pub mod YieldAccount
use dollar.Base.{ℕ}
use dollar.Base.Int.{ℤ}
use dollar.Base.Bytes.{Bytes}
use dollar.Types.{M, Result, bind, ◌>>=◌, ◌>>◌}
use dollar.Types.Store.{World}
use dollar.Types.Env.{Env, Call}
use dollar.Restriction.{send_restriction}

abbrev pub on_chain : {A Chain : Type 0} → (Chain → Result A × Chain) → M (World Chain) A
on_chain m w = let (r, c) = m w.chain in (r, record w { chain = c })

module _ {Chain Decimal : Type 0} (env : Env Chain Decimal) where
  unfoldable pub send_coins : Bytes → Bytes → ℤ → M (World Chain) (Unit {0})
  send_coins from to amount = do
    on_chain (env.before_restriction from to amount)
    to' ← send_restriction env from to amount
    on_chain (env.after_restriction from to' amount)

  unfoldable pub send_coins_from_account_to_module : Bytes → Bytes → ℤ → M (World Chain) (Unit {0})
  send_coins_from_account_to_module sender recipient_module amount = do
    on_chain (env.check_module_send recipient_module sender)
    send_coins sender (env.new_module_address recipient_module) amount

  unfoldable pub send_coins_from_module_to_account : Bytes → Bytes → ℤ → M (World Chain) (Unit {0})
  send_coins_from_module_to_account sender_module recipient amount = do
    on_chain (env.check_module_send sender_module recipient)
    send_coins (env.new_module_address sender_module) recipient amount

  unfoldable pub send_coins_from_module_to_module : Bytes → Bytes → ℤ → M (World Chain) (Unit {0})
  send_coins_from_module_to_module sender_module recipient_module amount = do
    on_chain (env.check_module_send sender_module (env.new_module_address recipient_module))
    send_coins (env.new_module_address sender_module) (env.new_module_address recipient_module)
        amount

  unfoldable pub mint_coins : Bytes → ℤ → M (World Chain) (Unit {0})
  mint_coins name amount = on_chain (env.mint_coins name amount)

  unfoldable pub burn_coins : Bytes → ℤ → M (World Chain) (Unit {0})
  burn_coins name amount = on_chain (env.burn_coins name amount)
