-- ===== src/Yield/Claim.antt =====
-- `GetYield` (keeper/keeper.go) and `ClaimYield` (keeper/msg_server.go).
use dollar.Base.{
  ℕ, Bool, true, ◌+◌, ◌-◌, ◌*◌, ◌/◌, ◌≡◌, ◌≢◌, ◌⊎◌, ◌||◌, inl, inr, refl, false, some, arith,
  Bool-cases,
}
use dollar.Base.Int.{ℤ, pos, ◌-ℤ◌, fits256, eqb_ℤ, is_negative, is_zero, is_positive}
use dollar.Base.Bytes.{Bytes, bytes_eq_refl}
use dollar.Types.{
  Result, ok, err, panic, pure, when, ◌>>=◌, Preserves, >>=-Preserves, throw_if-Preserves, paused,
  throw_if, gets, lift, get_item-some,
}
use dollar.Types.Store.{World, Dollar, yield_claimed}
use dollar.Types.Env.{Env}
use dollar.Math.Rounding.{present_formula}
use dollar.State.Dollar.{get_paused}
use dollar.State.Names.{emit, yield_name, yield_address}
use dollar.Restriction.{principal_of, balance_of, send_restriction}
use dollar.Bank.{on_chain, send_coins, send_coins_from_module_to_account}
use dollar.Yield.{valid_yield, get_yield, claim_yield, claim_module_yield, no_yield_on_error}

-- No yield is negative, and none is 1: what is not the difference itself is 0.
-- A difference that is neither 1 nor negative.
difference :
    (x b : ℕ)
    → eqb_ℤ (pos x -ℤ pos b) (pos 1) || is_negative (pos x -ℤ pos b) ≡ false
    → (pos x -ℤ pos b ≡ pos (x - b)) × (x - b ≢ 1) × (x - b + b ≡ x)
unfolding ◌-ℤ◌
difference x b g = ground arith

valid_yield-range :
    (x b : ℕ) → (n : ℕ) × (valid_yield (pos x -ℤ pos b) ≡ pos n) × (n ≢ 1) × ((n ≡ 0) ⊎ (n + b ≡ x))
unfolding valid_yield
valid_yield-range x b = elim (Bool-cases (fits256 (pos x -ℤ pos b))) [
  | inl f ↦ elim (Bool-cases (eqb_ℤ (pos x -ℤ pos b) (pos 1) || is_negative (pos x -ℤ pos b))) [
    | inl g ↦ rw (f, g) (0, refl, λ e. omega arith, inl refl)
    | inr g ↦ rw (f, g) let (e, n, q) = difference x b g in (x - b, e, n, inr q)
  ]
  | inr f ↦ rw f (0, refl, λ e. omega arith, inl refl)
]

module _ {Chain Decimal : Type 0} (env : Env Chain Decimal) where
  -- For a valid account with a principal and a balance that are not negative, under a stored index
  -- that is not negative, `GetYield` returns and writes nothing: the yield is never 1, and it is 0
  -- or what is missing in the balance to the present amount of the principal.
  pub get_yield-bounds :
      (account bz : Bytes) (p i b : ℕ) (w : World Chain)
      → env.string_to_bytes account ≡ some bz
      → w.dollar.index ≡ some (pos i)
      → principal_of bz w ≡ pos p
      → balance_of env bz w ≡ pos b
      → (n : ℕ) × (get_yield env account w ≡ (ok (pos n, bz), w))
        × (n ≢ 1)
        × ((n ≡ 0) ⊎ (n + b ≡ p * i / 1_000_000_000_000))
  unfolding get_yield
  get_yield-bounds account bz p i b w valid index principal balance =
      let (n, e, r, q) = valid_yield-range (p * i / 1_000_000_000_000) b in
      rw
        (
          valid,
          get_item-some (λ v. v.dollar.index) w (pos i) index,
          principal,
          balance,
          present_formula p i,
          e,
        )
        (n, refl, r, q)

  -- A send from the yield account changes nothing of the module's own state.
  restriction-Preserves :
      (d : Dollar) (to : Bytes) (amount : ℤ)
      → Preserves (λ w. w.dollar ≡ d) (send_restriction env (yield_address env) to amount)
  unfolding send_restriction
  restriction-Preserves d to amount = elim (Bool-cases (is_zero amount)) [
    | inl z ↦ rw z (record { keeps = λ w e. e })
    | inr z ↦ rw (z, bytes_eq_refl (yield_address env)) (record { keeps = λ w e. e })
  ]

  -- A send from the yield account changes nothing of the module's own state.
  send_coins-Preserves :
      (d : Dollar) (to : Bytes) (amount : ℤ)
      → Preserves (λ w. w.dollar ≡ d) (send_coins env (yield_address env) to amount)
  unfolding send_coins
  send_coins-Preserves d to amount =
      let P : World Chain → Type 0 = λ w. w.dollar ≡ d in
      >>=-Preserves P _ _ (record { keeps = λ w e. e })
        (λ _.
          >>=-Preserves P _ _ (restriction-Preserves d to amount)
            (λ to'. record { keeps = λ w e. e }))

  get_yield-Preserves :
      (d : Dollar) (account : Bytes) → Preserves (λ w. w.dollar ≡ d) (get_yield env account)
  unfolding get_yield
  get_yield-Preserves d account = record { keeps = λ w e. ground arith }

  to_account-Preserves :
      (d : Dollar) (a : Bytes) (amount : ℤ)
      → Preserves (λ w. w.dollar ≡ d) (send_coins_from_module_to_account env yield_name a amount)
  unfolding send_coins_from_module_to_account
  to_account-Preserves d a amount =
      >>=-Preserves {B = Unit {0}} (λ w. w.dollar ≡ d)
        (on_chain (env.check_module_send yield_name a))
        (λ _. send_coins env (yield_address env) a amount) (record { keeps = λ v e. e })
        (λ _. send_coins-Preserves d a amount)

  -- A module's claim of its yield changes nothing of the module's own state either, and an error on
  -- the way neither.
  pub claim_module_yield-dollar :
      (a : Bytes) (w : World Chain) → (claim_module_yield env a w).1.dollar ≡ w.dollar
  unfolding claim_module_yield
  claim_module_yield-dollar a w =
      let P : World Chain → Type 0 = λ v. v.dollar ≡ w.dollar in
      let claims : Preserves P (claim_module_yield env a) =
        >>=-Preserves {B = ℤ} P (λ v. no_yield_on_error (get_yield env (env.address_string a) v)) _
          (record {
            keeps = λ v e.
                kept (get_yield env (env.address_string a) v)
                  ((get_yield-Preserves w.dollar (env.address_string a)).keeps v e);
          })
          (λ yield.
            >>=-Preserves {B = ℤ} P
              (when (is_positive yield) (
                lift (env.new_coins yield) >>= λ coins.
                send_coins_from_module_to_account env yield_name a coins))
              (λ _. pure yield) (sends yield (is_positive yield))
              (λ _. record { keeps = λ v e. e })) in
      claims.keeps w refl
    where
      kept :
          (r : Result (ℤ × Bytes) × World Chain)
          → r.1.dollar ≡ w.dollar
          → (no_yield_on_error r).1.dollar ≡ w.dollar
      kept (ok x, v) e = e
      kept (err x, v) e = e
      kept (panic, v) e = e

      sends :
          (yield : ℤ) (c : Bool)
          → Preserves
              (λ v. v.dollar ≡ w.dollar)
              (when c (
                lift (env.new_coins yield) >>= λ coins.
                send_coins_from_module_to_account env yield_name a coins))
      sends yield false = record { keeps = λ v e. e }
      sends yield true =
          >>=-Preserves {B = Unit {0}} (λ v. v.dollar ≡ w.dollar) (lift (env.new_coins yield)) _
            (record { keeps = λ v e. e }) (λ coins. to_account-Preserves w.dollar a coins)

  -- A claim of yield changes no principal, and neither the index, the statistics nor the other
  -- items of the module, whether it succeeds or not.
  pub claim_yield-dollar :
      (signer : Bytes) (w : World Chain) → (claim_yield env signer w).1.dollar ≡ w.dollar
  unfolding claim_yield
  claim_yield-dollar signer w =
      let P : World Chain → Type 0 = λ v. v.dollar ≡ w.dollar in
      let claims : Preserves P (claim_yield env signer) =
        >>=-Preserves {B = Unit {0}} P (gets get_paused) _ (record { keeps = λ v e. e })
          (λ is_paused.
            >>=-Preserves {B = Unit {0}} P (throw_if is_paused paused) _
              (throw_if-Preserves P is_paused paused)
              (λ _.
                >>=-Preserves {B = Unit {0}} P (get_yield env signer) _
                  (get_yield-Preserves w.dollar signer)
                  (λ claim.
                    >>=-Preserves {B = Unit {0}} P (lift (env.new_coins claim.0)) _
                      (record { keeps = λ v e. e })
                      (λ coins.
                        >>=-Preserves {B = Unit {0}} P
                          (send_coins_from_module_to_account env yield_name claim.1 coins)
                          (λ _. emit (yield_claimed signer claim.0))
                          (to_account-Preserves w.dollar claim.1 coins)
                          (λ _. record { keeps = λ v e. e }))))) in
      claims.keeps w refl
