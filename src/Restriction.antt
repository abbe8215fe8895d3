-- ===== src/Restriction.antt =====
-- keeper/keeper.go, `SendRestrictionFn`: the bank runs it in every transfer, and it moves the
-- principal that underlies the $USDN which is sent.
pub mod Totals
pub mod Moves
pub mod Runs
use dollar.Base.{Bool, true, false, not, List, if◌then◌else◌}
use dollar.Base.Int.{ℤ, ◌+ℤ◌, ◌-ℤ◌, is_zero}
use dollar.Base.Bytes.{Bytes, bytes_eq}
use dollar.Base.Key.{bytes_key}
use dollar.Base.Map.{lookup, insert}
use dollar.Types.{
  M, Result, err, yield_transfer, pure, throw, lift, gets, get_item, when, ◌>>=◌, ◌>>◌,
}
use dollar.Types.Store.{World, Dollar}
use dollar.Types.Env.{Env, Restriction}
use dollar.Math.{get_principal_amount_rounded_up, get_principal_amount_rounded_down}
use dollar.State.Names.{module_address, yield_address, set_dollar}
use dollar.State.Dollar.{
  or_zero, increment_total_holders, decrement_total_holders, increment_total_principal,
  decrement_total_principal,
}

-- `Principal.Get`, where an account that is not there has none.
unfoldable pub principal_of : {Chain : Type 0} → Bytes → World Chain → ℤ
principal_of account w = or_zero (lookup account w.dollar.principal)

unfoldable pub set_principal : {Chain : Type 0} → Bytes → ℤ → M (World Chain) (Unit {0})
set_principal account amount =
    set_dollar (λ d. record d { principal = insert account amount d.principal })

module _ {Chain Decimal : Type 0} (env : Env Chain Decimal) where
  abbrev pub balance_of : Bytes → World Chain → ℤ
  balance_of account w = env.get_balance w.chain account

  -- The first half: the sender's principal, or the total on issuance.
  unfoldable pub debit_sender : Bytes → ℤ → M (World Chain) (Unit {0})
  unfolding principal_of set_principal
  debit_sender sender principal =
      if bytes_eq sender (module_address env) then increment_total_principal principal else do
        sender_principal ← gets (principal_of sender)
        set_principal sender (sender_principal -ℤ principal)
        balance ← gets (balance_of sender)
        when (is_zero balance) decrement_total_holders

  -- The second half: the recipient's principal, or the total on withdrawal.
  unfoldable pub credit_recipient : Bytes → ℤ → M (World Chain) (Unit {0})
  unfolding principal_of set_principal
  credit_recipient recipient principal = do
    recipient_principal ← gets (principal_of recipient)
    set_principal recipient (recipient_principal +ℤ principal)
    balance ← gets (balance_of recipient)
    when (is_zero balance) increment_total_holders

  -- What is left once the transfers of the yield account are told apart.
  unfoldable pub move_principal : Bytes → Bytes → ℤ → M (World Chain) (Unit {0})
  move_principal sender recipient amount = do
    index ← get_item (λ w. w.dollar.index)
    principal ← lift (get_principal_amount_rounded_up amount index)
    debit_sender sender principal
    (if bytes_eq recipient (module_address env) then decrement_total_principal principal else do
      issued ←
          (if bytes_eq sender (module_address env)
            then lift (get_principal_amount_rounded_down amount index)
            else pure principal)
      credit_recipient recipient issued)

  unfoldable pub send_restriction : Restriction Chain
  send_restriction sender recipient amount =
      if is_zero amount
      then pure recipient
      else if bytes_eq sender (yield_address env)
      then pure recipient
      else if bytes_eq recipient (yield_address env)
      then if bytes_eq sender (module_address env) then pure recipient else throw yield_transfer
      else do move_principal sender recipient amount; pure recipient
