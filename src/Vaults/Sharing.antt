-- ===== src/Vaults/Sharing.antt =====
-- The sums in the walk over the rewards (keeper/msg_server_vaults.go, `ClaimRewards`).
use dollar.Base.{◌≡◌, refl, true, not, ◌&&◌, [], ◌∷◌, Bool-cases, inl, inr}
use dollar.Base.Int.{ℤ, pos, ◌+ℤ◌, int_laws, ltb_ℤ, is_positive, eqb_ℤ, is_negative}
use dollar.Base.Key.{int_key}
use dollar.Base.Map.{Map}
use dollar.Base.Map.Laws.{sum}
use dollar.Types.{ok}
use dollar.Types.Store.{Reward}
use dollar.Types.Env.{Env}
use dollar.Vaults.Walk.{user_reward, visit_reward, walk_rewards}

-- What is left in all records.
abbrev pub left : Map ℤ Reward → ℤ
left m = sum (λ r. r.rewards) m

-- Decimals divide by a positive total.
abbrev pub Divides : {Chain Decimal : Type 0} → Env Chain Decimal → Type 0
Divides {Chain} {Decimal} env =
    (a : Decimal) (n : ℤ)
    → is_positive n ≡ true
    → (q : Decimal) × (env.dec_quo a (env.dec_from_int n) ≡ ok q)

module _ {Chain Decimal : Type 0} (env : Env Chain Decimal) (divides : Divides env)
    (current_index amount : ℤ) where
  user_reward-ok :
      (r : Reward)
      → is_positive r.total ≡ true
      → (n : ℤ) × (user_reward env current_index amount r ≡ ok n)
  unfolding user_reward
  user_reward-ok r h =
      let (q, e) = divides (env.dec_from_int r.rewards) r.total h in
      elim (Bool-cases (not (eqb_ℤ r.index current_index) && not (is_negative r.rewards))) [
        | inl c ↦ rw (c, e) (_, refl)
        | inr c ↦ rw c (_, refl)
      ]

  -- One record loses what is paid out of it.
  visit_reward-ok :
      (r : Reward)
      → (r' : Reward) × (n : ℤ) × (visit_reward env current_index amount r ≡ ok (r', n))
        × (r'.rewards +ℤ n ≡ r.rewards)
  unfolding visit_reward
  visit_reward-ok r = elim (Bool-cases (is_positive r.total)) [
    | inl t ↦ elim (Bool-cases (is_positive r.rewards)) [
      | inl s ↦ let (n, e) = user_reward-ok r t in rw (t, s, e) (_, n, refl, omega int_laws)
      | inr s ↦ rw (t, s) (r, pos 0, refl, omega int_laws)
    ]
    | inr t ↦ rw t (r, pos 0, refl, omega int_laws)
  ]

  -- Where decimals divide by positive numbers, the walk over the rewards of a claim always
  -- returns, and what is left in all records together with the sum that it returns is what was in
  -- them before.
  pub walk_rewards-conserves :
      (start : ℤ) (m : Map ℤ Reward)
      → (m' : Map ℤ Reward) × (n : ℤ) × (walk_rewards env start current_index amount m ≡ ok (m', n))
        × (left m' +ℤ n ≡ left m)
  unfolding walk_rewards sum
  walk_rewards-conserves start [] = ([], pos 0, refl, omega int_laws)
  walk_rewards-conserves start ((key, r) ∷ m) =
      let (m', n, e, s) = walk_rewards-conserves start m in
      let (r', k, f, t) = visit_reward-ok r in
      elim (Bool-cases (ltb_ℤ start key)) [
        | inl c ↦ rw (c, f, e) ((key, r') ∷ m', k +ℤ n, refl, grind (int_laws, s, t))
        | inr c ↦ rw (c, e) ((key, r) ∷ m', pos 0 +ℤ n, refl, grind (int_laws, s))
      ]
