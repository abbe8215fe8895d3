-- ===== src/Restriction/Moves.antt =====
-- `SendRestrictionFn` (keeper/keeper.go) between users, on issuance and on withdrawal.
use dollar.Base.{ℕ, ◌+◌, ◌<◌, ◌≤◌, ◌≡◌, refl, true, false, arith}
use dollar.Base.Int.{ℤ, pos, ◌+ℤ◌, ◌-ℤ◌, is_zero, fits256, -ℤ-+ℤ_cancel}
use dollar.Base.Bytes.{Bytes, bytes_eq}
use dollar.Types.{ok, get_item-some}
use dollar.Types.Store.{World}
use dollar.Types.Env.{Env}
use dollar.Math.Rounding.{rounded_up_formula, rounded_down_formula, up, down, up-down}
use dollar.Math.{get_principal_amount_rounded_down, get_principal_amount_rounded_up}
use dollar.State.Names.{module_address, yield_address}
use dollar.State.Dollar.{decrement_total_principal}
use dollar.Restriction.{debit_sender, credit_recipient, move_principal, send_restriction}
use dollar.Restriction.Totals.{
  Totals, Leaves, bind-Leaves, debit_sender-user, debit_sender-module, credit_recipient-Leaves,
  decrement_total_principal-Totals,
}

is_zero_of_positive : (a : ℕ) → 0 < a → is_zero (pos a) ≡ false
is_zero_of_positive a h = ground arith

module _ {Chain Decimal : Type 0} (env : Env Chain Decimal) (sender recipient : Bytes) (a i : ℕ)
    (w : World Chain) (h t : ℤ) where
  -- Between two users, principals move and none is created.
  move_principal-users :
      0 < i
      → bytes_eq sender (module_address env) ≡ false
      → bytes_eq recipient (module_address env) ≡ false
      → Totals w h t (pos i)
      → Leaves (move_principal env sender recipient (pos a)) tt w h t (pos i)
  unfolding move_principal
  move_principal-users positive from to r =
      rw
        (
          get_item-some (λ v. v.dollar.index) w (pos i) r.of_index,
          rounded_up_formula a i positive,
          to,
          from,
        )
        (bind-Leaves (debit_sender env sender (pos (up a i)))
          (λ _. credit_recipient env recipient (pos (up a i))) tt tt w (h -ℤ (pos (up a i))) t h t
          (pos i) (debit_sender-user env w (pos (up a i)) h t (pos i) sender from r)
          (λ w₁ r₁. rw (-ℤ-+ℤ_cancel h (pos (up a i))) at (
            credit_recipient-Leaves env w₁ (pos (up a i)) (h -ℤ (pos (up a i))) t (pos i) recipient
              r₁)))

  -- An issuance: the account gains the principal rounded down, the total the one rounded up.
  pub move_principal-issue :
      0 < i
      → bytes_eq sender (module_address env) ≡ true
      → bytes_eq recipient (module_address env) ≡ false
      → fits256 (t +ℤ (pos (up a i))) ≡ true
      → Totals w h t (pos i)
      → Leaves
          (move_principal env sender recipient (pos a))
          tt
          w
          (h +ℤ (pos (down a i)))
          (t +ℤ (pos (up a i)))
          (pos i)
  unfolding move_principal
  move_principal-issue positive from to fits r =
      rw
        (
          get_item-some (λ v. v.dollar.index) w (pos i) r.of_index,
          rounded_up_formula a i positive,
          to,
          from,
          rounded_down_formula a i positive,
        )
        (bind-Leaves (debit_sender env sender (pos (up a i)))
          (λ _. credit_recipient env recipient (pos (down a i))) tt tt w h (t +ℤ (pos (up a i)))
          (h +ℤ (pos (down a i))) (t +ℤ (pos (up a i))) (pos i)
          (debit_sender-module env w (pos (up a i)) h t (pos i) sender from fits r)
          (λ w₁ r₁.
            credit_recipient-Leaves env w₁ (pos (down a i)) h (t +ℤ (pos (up a i))) (pos i)
              recipient r₁))

  -- A withdrawal: the account and the total lose the same principal.
  pub move_principal-withdraw :
      0 < i
      → bytes_eq sender (module_address env) ≡ false
      → bytes_eq recipient (module_address env) ≡ true
      → fits256 (t -ℤ (pos (up a i))) ≡ true
      → Totals w h t (pos i)
      → Leaves
          (move_principal env sender recipient (pos a))
          tt
          w
          (h -ℤ (pos (up a i)))
          (t -ℤ (pos (up a i)))
          (pos i)
  unfolding move_principal
  move_principal-withdraw positive from to fits r =
      rw
        (
          get_item-some (λ v. v.dollar.index) w (pos i) r.of_index,
          rounded_up_formula a i positive,
          to,
        )
        (bind-Leaves (debit_sender env sender (pos (up a i)))
          (λ _. decrement_total_principal (pos (up a i))) tt tt w (h -ℤ (pos (up a i))) t
          (h -ℤ (pos (up a i))) (t -ℤ (pos (up a i))) (pos i)
          (debit_sender-user env w (pos (up a i)) h t (pos i) sender from r)
          (λ w₁ r₁.
            decrement_total_principal-Totals (pos (up a i)) w₁ (h -ℤ (pos (up a i))) t (pos i) fits
              r₁))

  -- What the send restriction does with an amount that is not zero between such accounts.
  pub send_restriction-move :
      (w₁ : World Chain) (h₁ t₁ : ℤ)
      → 0 < a
      → bytes_eq sender (yield_address env) ≡ false
      → bytes_eq recipient (yield_address env) ≡ false
      → Leaves (move_principal env sender recipient (pos a)) tt w h₁ t₁ (pos i)
      → Leaves (send_restriction env sender recipient (pos a)) recipient w h₁ t₁ (pos i)
  unfolding send_restriction
  send_restriction-move w₁ h₁ t₁ some_amount from to (w₂, e, r) =
      rw (is_zero_of_positive a some_amount, from, to, e) (w₂, refl, r)

module _ {Chain Decimal : Type 0} (env : Env Chain Decimal) (sender recipient : Bytes) (a i : ℕ)
    (w : World Chain) (h t : ℤ) where
  -- Between two accounts that are neither the module's nor the yield account, at a positive index
  -- and with the statistics there, the send restriction of a positive amount succeeds with the
  -- recipient it was given, and leaves the sum of all principals, the total principal of the
  -- statistics and the index as they were.
  pub send_restriction-users :
      0 < i
      → 0 < a
      → bytes_eq sender (yield_address env) ≡ false
      → bytes_eq recipient (yield_address env) ≡ false
      → bytes_eq sender (module_address env) ≡ false
      → bytes_eq recipient (module_address env) ≡ false
      → Totals w h t (pos i)
      → Leaves (send_restriction env sender recipient (pos a)) recipient w h t (pos i)
  send_restriction-users positive some_amount from to from_user to_user r =
      send_restriction-move env sender recipient a i w h t w h t some_amount from to
        (move_principal-users env sender recipient a i w h t positive from_user to_user r)

  -- From the module to a user, neither of them the yield account, at a positive index, with the
  -- statistics there and where the total stays within 256 bits: the send restriction of a positive
  -- amount succeeds, the index stays, and the total principal rises by what the sum of all
  -- principals rises by, or by one more. The sum gains the amount's principal rounded down.
  pub send_restriction-issue :
      0 < i
      → 0 < a
      → bytes_eq sender (yield_address env) ≡ false
      → bytes_eq recipient (yield_address env) ≡ false
      → bytes_eq sender (module_address env) ≡ true
      → bytes_eq recipient (module_address env) ≡ false
      → fits256 (t +ℤ pos (up a i)) ≡ true
      → Totals w h t (pos i)
      → (p d : ℕ) × (get_principal_amount_rounded_down (pos a) (pos i) ≡ ok (pos p))
        × (d ≤ 1)
        × Leaves
            (send_restriction env sender recipient (pos a))
            recipient
            w
            (h +ℤ pos p)
            (t +ℤ pos (p + d))
            (pos i)
  send_restriction-issue positive some_amount from to from_module to_user fits r =
      let (d, small, e) = up-down a i positive in
      (
        down a i,
        d,
        rounded_down_formula a i positive,
        small,
        rw e at (
            send_restriction-move env sender recipient a i w h t w (h +ℤ pos (down a i))
              (t +ℤ pos (up a i)) some_amount from to
              (move_principal-issue env sender recipient a i w h t positive from_module to_user fits
                r)),
      )

  -- From a user to the module, neither of them the yield account, at a positive index, with the
  -- statistics there and where the total stays within 256 bits: the send restriction of a positive
  -- amount succeeds, the index stays, and the sum of all principals and the total principal lose
  -- the same amount, which is the amount's principal rounded up.
  pub send_restriction-withdraw :
      0 < i
      → 0 < a
      → bytes_eq sender (yield_address env) ≡ false
      → bytes_eq recipient (yield_address env) ≡ false
      → bytes_eq sender (module_address env) ≡ false
      → bytes_eq recipient (module_address env) ≡ true
      → fits256 (t -ℤ pos (up a i)) ≡ true
      → Totals w h t (pos i)
      → (p : ℕ) × (get_principal_amount_rounded_up (pos a) (pos i) ≡ ok (pos p))
        × Leaves
            (send_restriction env sender recipient (pos a))
            recipient
            w
            (h -ℤ pos p)
            (t -ℤ pos p)
            (pos i)
  send_restriction-withdraw positive some_amount from to from_user to_module fits r = (
    up a i,
    rounded_up_formula a i positive,
    send_restriction-move env sender recipient a i w h t w (h -ℤ pos (up a i)) (t -ℤ pos (up a i))
        some_amount from to
        (move_principal-withdraw env sender recipient a i w h t positive from_user to_module fits
          r),
  )
