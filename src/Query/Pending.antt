-- ===== src/Query/Pending.antt =====
-- The pending rewards of the queries (keeper/query_server_vaults.go) against the claims
-- (keeper/msg_server_vaults.go, `ClaimRewards`).
use dollar.Base.{◌≡◌, refl, true, Option, some, [], ◌∷◌, arith}
use dollar.Base.Int.{ℤ, +ℤ_zero, is_positive}
use dollar.Base.Map.{Map}
use dollar.Types.{
  M, Result, ok, err, panic, pure, lift, bind, get_item, get_item-some, >>=-eq-ok, ◌>>=◌, ◌>>◌,
}
use dollar.Types.Store.{World, Reward, PositionEntry, reward_claimed}
use dollar.Types.Env.{Env}
use dollar.Vaults.Walk.{user_reward, visit_reward, walk_rewards}
use dollar.Base.Bytes.{Bytes}
use dollar.Math.{get_principal_amount_rounded_down}
use dollar.Bank.{send_coins}
use dollar.State.Names.{emit, flexible_vault_name, flexible_vault_address, set_vaults}
use dollar.Restriction.{principal_of}
use dollar.Vaults.Rewards.{pay_rewards, claim_rewards}
use dollar.Query.Rewards.{positions_rewards, pending_reward, position_rewards}

-- The sum that a walk returns, with its errors and panics.
abbrev paid : Result (Map ℤ Reward × ℤ) → Result ℤ
paid (ok (m, total)) = ok total
paid (err e) = err e
paid panic = panic

module _ {Chain Decimal : Type 0} (env : Env Chain Decimal) (start current_index amount : ℤ) where
  -- What the query computes as pending is what a claim of the same principal pays.
  position_rewards-walk_rewards :
      (m : Map ℤ Reward)
      → position_rewards env start current_index amount m
        ≡ paid (walk_rewards env start current_index amount m)
  unfolding position_rewards pending_reward walk_rewards visit_reward user_reward
  position_rewards-walk_rewards [] = refl
  position_rewards-walk_rewards ((key, r) ∷ m) = rw (position_rewards-walk_rewards m) (ground arith)

-- A call that returns nothing but this value.
record Returns {W A : Type 0} (m : M W A) (a : A) : Type 0 where
  only : (w w' : W) (b : A) → m w ≡ (ok b, w') → b ≡ a

module _ {W A B : Type 0} where
  >>=-Returns :
      (m : M W A) (f : A → M W B) (b : B) → ((a : A) → Returns (f a) b) → Returns (m >>= f) b
  >>=-Returns m f b h = record {
    only = λ w w' c e. let (a, w₁, e₁, e₂) = >>=-eq-ok m f w w' c e in (h a).only w₁ w' c e₂;
  }

pure-Returns : {W A : Type 0} (a : A) → Returns (pure {W = W} a) a
pure-Returns a = record { only = λ w w' b e. cc }

-- A read of an item, a computation, and a second one on the state, in front of the rest.
steps_ok :
    {W A B C D : Type 0} (f : W → Option A) (r : Result B) (walk : A → B → W → Result C)
    (rest : C → M W D) (w w' : W) (a : A) (d : D)
    → f w ≡ some a
    → (get_item f >>= λ c. lift r >>= λ p. (λ w. (walk c p w, w)) >>= rest) w ≡ (ok d, w')
    → (p : B) × (c : C) × (r ≡ ok p) × (walk a p w ≡ ok c) × (rest c w ≡ (ok d, w'))
steps_ok {W} {A} {B} {C} {D} f r walk rest w w' a d i e =
    computed r refl (rw (get_item-some f w a i) at e)
  where
    walked :
        (p : B) (s : Result C)
        → walk a p w ≡ s
        → bind (s, w) rest ≡ (ok d, w')
        → (c : C) × (walk a p w ≡ ok c) × (rest c w ≡ (ok d, w'))
    walked p (ok c) g h = (c, g, h)
    walked p (err x) g h = cc
    walked p panic g h = cc

    computed :
        (s : Result B)
        → r ≡ s
        → bind (s, w) (λ p. (λ w. (walk a p w, w)) >>= rest) ≡ (ok d, w')
        → (p : B) × (c : C) × (r ≡ ok p) × (walk a p w ≡ ok c) × (rest c w ≡ (ok d, w'))
    computed (ok p) g h = let (c, k, l) = walked p (walk a p w) refl h in (p, c, g, k, l)
    computed (err x) g h = cc
    computed panic g h = cc

module _ {Chain Decimal : Type 0} (env : Env Chain Decimal) (user : Bytes)
    (position : PositionEntry) where
  -- What a claim does with the records that are left and the sum.
  abbrev settle : Map ℤ Reward × ℤ → M (World Chain) ℤ
  settle (rewards, rewards_amount) = do
    set_vaults (λ v. record v { rewards = rewards })
    coins ← lift (env.new_coins rewards_amount)
    send_coins env (env.new_module_address flexible_vault_name) position.address coins
    emit (reward_claimed user rewards_amount)
    pure rewards_amount

  settle-Returns : (m : Map ℤ Reward) (total : ℤ) → Returns (settle (m, total)) total
  settle-Returns m total = >>=-Returns (set_vaults (λ v. record v { rewards = m })) _ total (λ _.
      >>=-Returns (lift (env.new_coins total)) _ total (λ coins.
        >>=-Returns
          (send_coins env (env.new_module_address flexible_vault_name) position.address coins) _
          total
          (λ _.
            >>=-Returns (emit (reward_claimed user total)) (λ _. pure total) total
              (λ _. pure-Returns total))))

  -- A payment that returns has computed a principal and walked over the rewards.
  pay_rewards_ok :
      (current_index paid_amount : ℤ) (w w' : World Chain)
      → w.dollar.index ≡ some current_index
      → pay_rewards env user position position.amount w ≡ (ok paid_amount, w')
      → (principal : ℤ) × (get_principal_amount_rounded_down position.amount position.index
          ≡ ok principal)
        × (paid (walk_rewards env position.index current_index principal w.vaults.rewards)
            ≡ ok paid_amount)
  unfolding pay_rewards
  pay_rewards_ok current_index paid_amount w w' i e =
      let (principal, (m, total), f, g, h) =
        steps_ok (λ w. w.dollar.index)
          (get_principal_amount_rounded_down position.amount position.index)
          (λ c p w. walk_rewards env position.index c p w.vaults.rewards) settle w w' current_index
          paid_amount i e in
      let same = (settle-Returns m total).only w w' paid_amount h in
      (principal, f, rw (g, same) refl)

  pay_rewards-positions_rewards :
      (current_index paid_amount : ℤ) (w w' : World Chain)
      → w.dollar.index ≡ some current_index
      → pay_rewards env user position position.amount w ≡ (ok paid_amount, w')
      → positions_rewards env current_index (position ∷ []) w.vaults.rewards
        ≡ ok (paid_amount, record { amount = position.amount; pending_rewards = paid_amount } ∷ [])
  unfolding positions_rewards
  pay_rewards-positions_rewards current_index paid_amount w w' i e =
      let (principal, f, g) = pay_rewards_ok current_index paid_amount w w' i e in
      rw
        (
          f,
          position_rewards-walk_rewards env position.index current_index principal w.vaults.rewards,
          g,
          +ℤ_zero,
        )
        refl

  -- Where the flexible vault has principal and the address has a text, a claim of the rewards of a
  -- whole position that returns an amount pays what the query gives for the position on the same
  -- state, both as its total and in the entry of the position.
  pub claim_rewards-positions_rewards :
      (current_index paid_amount : ℤ) (w w' : World Chain)
      → env.bytes_to_string position.address ≡ some user
      → is_positive (principal_of (flexible_vault_address env) w) ≡ true
      → w.dollar.index ≡ some current_index
      → claim_rewards env position position.amount w ≡ (ok paid_amount, w')
      → positions_rewards env current_index (position ∷ []) w.vaults.rewards
        ≡ ok (paid_amount, record { amount = position.amount; pending_rewards = paid_amount } ∷ [])
  unfolding claim_rewards
  claim_rewards-positions_rewards current_index paid_amount w w' known positive i e =
      pay_rewards-positions_rewards current_index paid_amount w w' i (rw (known, positive) at e)
