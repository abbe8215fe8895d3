-- ===== src/Vaults/Removal.antt =====
-- The amounts in the loop of `unlock` (keeper/msg_server_vaults.go).
use dollar.Base.{◌≡◌, ◌⊎◌, inl, inr, refl, List, [], ◌∷◌, arith, Bool-cases}
use dollar.Base.Int.{ℤ, pos, ◌+ℤ◌, ◌-ℤ◌, ◌≤ℤ◌, int_laws, is_zero, ltb_ℤ, leb_ℤ}
use dollar.Base.Bytes.{Bytes}
use dollar.Types.{Result, ok, >>=-eq-ok}
use dollar.Types.Store.{World, PositionEntry}
use dollar.Types.Env.{Env}
use dollar.Vaults.Unlock.{total_amount, amount_to_remove, unlock_position, unlock_loop}

-- No position has a negative amount.
abbrev pub NonNegative : List PositionEntry → Type 0
NonNegative [] = Unit {0}
NonNegative (position ∷ positions) = (pos 0 ≤ℤ position.amount) × NonNegative positions

pub total_amount-nonneg :
    (positions : List PositionEntry) → NonNegative positions → pos 0 ≤ℤ total_amount positions
unfolding total_amount
total_amount-nonneg [] h = omega arith
total_amount-nonneg (position ∷ positions) (h, hs) =
    omega (int_laws, total_amount-nonneg positions hs)

-- One round removes no more than the position, and no more than is left to remove.
pub amount_to_remove-min :
    (position : PositionEntry) (remaining : ℤ)
    → ((remaining ≤ℤ position.amount) × (amount_to_remove position remaining ≡ remaining))
      ⊎ ((position.amount ≤ℤ remaining) × (amount_to_remove position remaining ≡ position.amount))
unfolding amount_to_remove
amount_to_remove-min position remaining = elim (Bool-cases (ltb_ℤ remaining position.amount)) [
  | inl e ↦ inl (ground arith, rw e refl)
  | inr e ↦ inr (ground arith, rw e refl)
]

module _ {Chain Decimal : Type 0} (env : Env Chain Decimal) (addr signer : Bytes) (vault : ℤ) where
  returned :
      (a b r q : ℤ) (w w' : World Chain)
      → ◌≡◌ {A = Result (ℤ × ℤ) × World Chain} (ok (a, b), w) (ok (r, q), w')
      → a ≡ r
  returned a b r q w w' e = cc

  -- By induction over the positions.
  pub unlock_loop-left :
      (positions : List PositionEntry) (remaining removed r q : ℤ) (w w' : World Chain)
      → NonNegative positions
      → pos 0 ≤ℤ remaining
      → unlock_loop env addr signer vault positions remaining removed w ≡ (ok (r, q), w')
      → (remaining ≤ℤ total_amount positions → r ≡ pos 0)
        × (total_amount positions ≤ℤ remaining → r +ℤ total_amount positions ≡ remaining)
  unfolding unlock_loop total_amount
  unlock_loop-left [] remaining removed r q w w' hs h e =
      let same : remaining ≡ r = returned remaining removed r q w w' e in
      (λ le. grind (int_laws, same), λ le. grind (int_laws, same))
  unlock_loop-left (position ∷ positions) remaining removed r q w w' (p, hs) h e =
      elim (Bool-cases (is_zero remaining)) [
        | inl z ↦
            let same = returned remaining removed r q w w' (rw z at e) in
            (
              λ le. grind (int_laws, same),
              λ le. grind (int_laws, same, total_amount-nonneg positions hs),
            )
        | inr z ↦
            let (principal, w₁, _, e₁) =
              >>=-eq-ok
                (unlock_position env addr signer vault position
                  (amount_to_remove position remaining))
                (λ principal.
                  unlock_loop env addr signer vault positions
                    (remaining -ℤ amount_to_remove position remaining) (removed +ℤ principal))
                w w' (r, q) (rw z at e) in
            let left = remaining -ℤ amount_to_remove position remaining in
            let ih =
              unlock_loop-left positions left (removed +ℤ principal) r q w₁ w' hs
                (grind (int_laws, amount_to_remove-min position remaining)) e₁ in
            (
              λ le. grind (
                int_laws,
                amount_to_remove-min position remaining,
                ih.0,
                total_amount-nonneg positions hs,
              ),
              λ le. grind (
                int_laws,
                amount_to_remove-min position remaining,
                ih.1,
                total_amount-nonneg positions hs,
              ),
            )
      ]

  -- Over positions of amounts that are not negative, where the loop of an unlock of an amount
  -- that is not negative returns: the positions hold that much and nothing is left to remove, or
  -- what is left is what the positions lack.
  pub unlock_loop-remaining :
      (positions : List PositionEntry) (remaining removed r q : ℤ) (w w' : World Chain)
      → NonNegative positions
      → pos 0 ≤ℤ remaining
      → unlock_loop env addr signer vault positions remaining removed w ≡ (ok (r, q), w')
      → ((remaining ≤ℤ total_amount positions) × (r ≡ pos 0))
        ⊎ ((total_amount positions ≤ℤ remaining) × (r +ℤ total_amount positions ≡ remaining))
  unlock_loop-remaining positions remaining removed r q w w' hs h e =
      let (enough, lacks) = unlock_loop-left positions remaining removed r q w w' hs h e in
      elim (Bool-cases (leb_ℤ remaining (total_amount positions))) [
        | inl c ↦ let le : remaining ≤ℤ total_amount positions = ground arith in inl (le, enough le)
        | inr c ↦ let le : total_amount positions ≤ℤ remaining = ground arith in inr (le, lacks le)
      ]
