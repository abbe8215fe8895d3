-- ===== src/Bank/Laws.antt =====
-- What the keeper relies on of the bank: coins are minted, burned and sent by the amount.
use dollar.Base.{ℕ, ◌≡◌, false}
use dollar.Base.Int.{pos, ◌+ℤ◌, ◌-ℤ◌, ◌≤ℤ◌}
use dollar.Base.Bytes.{Bytes, bytes_eq}
use dollar.Types.{ok}
use dollar.Types.Env.{Env}
use dollar.State.Names.{module_name, module_address, yield_address}

pub record IsBank {Chain Decimal : Type 0} (env : Env Chain Decimal) : Type 0 where
  -- coins of an amount that is not negative
  pub coins : (n : ℕ) → env.new_coins (pos n) ≡ ok (pos n)
  pub mints :
      (name : Bytes) (n : ℕ) (c : Chain)
      → (c' : Chain) × (env.mint_coins name (pos n) c ≡ (ok tt, c'))
        × (env.get_supply c' ≡ env.get_supply c +ℤ pos n)
        × (env.get_balance c' (env.new_module_address name)
            ≡ env.get_balance c (env.new_module_address name) +ℤ pos n)
        × ((account : Bytes)
            → bytes_eq (env.new_module_address name) account ≡ false
            → env.get_balance c' account ≡ env.get_balance c account)
  pub burns :
      (name : Bytes) (n : ℕ) (c : Chain)
      → pos n ≤ℤ env.get_balance c (env.new_module_address name)
      → (c' : Chain) × (env.burn_coins name (pos n) c ≡ (ok tt, c'))
        × (env.get_supply c' ≡ env.get_supply c -ℤ pos n)
  -- a send runs the restriction first
  pub restricts :
      (sender recipient : Bytes) (n : ℕ) (c : Chain)
      → env.before_restriction sender recipient (pos n) c ≡ (ok tt, c)
  -- and moves what the sender has
  pub sends :
      (sender recipient : Bytes) (n : ℕ) (c : Chain)
      → bytes_eq sender recipient ≡ false
      → pos n ≤ℤ env.get_balance c sender
      → (c' : Chain) × (env.after_restriction sender recipient (pos n) c ≡ (ok tt, c'))
        × (env.get_supply c' ≡ env.get_supply c)
        × (env.get_balance c' recipient ≡ env.get_balance c recipient +ℤ pos n)

-- An account that coins are issued to and taken back from: sends between it and the module are allowed, and it is
-- neither the module's own account nor that of the yield, nor are these two the same.
pub record IsUser {Chain Decimal : Type 0} (env : Env Chain Decimal) (account : Bytes)
    : Type 0 where
  pub no_module : bytes_eq account (module_address env) ≡ false
  pub module_no : bytes_eq (module_address env) account ≡ false
  pub no_yield : bytes_eq account (yield_address env) ≡ false
  pub differ : bytes_eq (module_address env) (yield_address env) ≡ false
  pub allowed : (c : Chain) → env.check_module_send module_name account c ≡ (ok tt, c)
