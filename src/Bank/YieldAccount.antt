-- ===== src/Bank/YieldAccount.antt =====
-- The yield account in the sends of the bank, with the keeper's send restriction in them
-- (keeper/keeper.go).
use dollar.Base.{◌≡◌, refl, false}
use dollar.Base.Int.{ℤ}
use dollar.Base.Bytes.{Bytes, bytes_eq}
use dollar.Base.Key.{bytes_key}
use dollar.Base.Map.{lookup}
use dollar.Base.Map.Laws.{lookup-insert}
use dollar.Types.{Preserves}
use dollar.Types.Rules.{bind-Preserves}
use dollar.Types.Store.{World}
use dollar.Types.Env.{Env}
use dollar.State.Names.{yield_address}
use dollar.State.Dollar.{or_zero}
use dollar.Restriction.{principal_of, set_principal, send_restriction}
use dollar.Bank.{on_chain, send_coins}
use dollar.Bank.Keeping.{Writes, send_restriction-aside}

module _ {Chain : Type 0} (account : Bytes) (x : ℤ) where
  -- The account has this principal.
  abbrev Has : World Chain → Type 0
  Has w = or_zero (lookup account w.dollar.principal) ≡ x

  other-Writes : (a : Bytes) → bytes_eq a account ≡ false → Writes Has a
  unfolding set_principal
  other-Writes a other n = record {
    keeps = λ w p. rw (lookup-insert a account n w.dollar.principal, other) p;
  }

module _ {Chain Decimal : Type 0} (env : Env Chain Decimal) (sender recipient : Bytes)
    (amount : ℤ) where
  send_coins-Has :
      (x : ℤ) → Preserves (Has (yield_address env) x) (send_coins env sender recipient amount)
  unfolding send_coins
  send_coins-Has x =
      let P = Has (yield_address env) x in
      bind-Preserves P {B = Unit {0}} (on_chain (env.before_restriction sender recipient amount))
        (record { keeps = λ w p. p })
        (λ _.
          bind-Preserves P {B = Unit {0}} (send_restriction env sender recipient amount)
            (send_restriction-aside env P (λ w s p. p) sender recipient amount
              (other-Writes (yield_address env) x sender)
              (other-Writes (yield_address env) x recipient))
            (λ to. record { keeps = λ w p. p }))

  -- Whatever the bank does around the restriction: no send of coins changes the principal of the
  -- yield account, be it the sender, the recipient or neither, and whether the send returns, fails
  -- or panics.
  pub send_coins-principal :
      (w : World Chain)
      → principal_of (yield_address env) (send_coins env sender recipient amount w).1
        ≡ principal_of (yield_address env) w
  unfolding principal_of
  send_coins-principal w = (send_coins-Has (principal_of (yield_address env) w)).keeps w refl
