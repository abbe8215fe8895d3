-- ===== src/Vaults/Backing/Rounds.antt =====
-- What a round of an unlock (keeper/msg_server_vaults.go, `unlock`) does to the positions and to
-- the total flexible principal.
use dollar.Base.{◌≡◌, refl, Option, some, Bool-cases, inl, inr, if◌then◌else◌}
use dollar.Base.Int.{ℤ, pos, ◌+ℤ◌, ◌-ℤ◌, is_positive, leb_ℤ, eqb_ℤ}
use dollar.Base.Bytes.{Bytes}
use dollar.Base.Map.{Map}
use dollar.Types.{
  ok, bad_address, pure, lift, gets, get_item, or_throw, Preserves, get_item-Preserves,
  or_throw-Preserves, ◌>>=◌, ◌>>◌,
}
use dollar.Types.Rules.{
  bind-Preserves, reads-Preserves, if-Preserves, Ensures, bind-Ensures, keeps-Ensures, lift-Ensures,
  modify-Ensures, pure-Ensures, fact-Ensures,
}
use dollar.Types.Store.{
  World, Reward, PositionKey, Position, PositionEntry, position_unlocked, reward_claimed,
}
use dollar.Types.Env.{Env}
use dollar.Math.{get_principal_amount_rounded_down}
use dollar.Restriction.{principal_of}
use dollar.Bank.{send_coins}
use dollar.Bank.Keeping.{IsStable, send_coins-Preserves}
use dollar.Yield.{claim_module_yield}
use dollar.Yield.Keeping.{claim_module_yield-Preserves}
use dollar.State.Names.{flexible_vault_name, flexible_vault_address, set_vaults, emit}
use dollar.State.Dollar.{or_zero}
use dollar.State.Vaults.{
  flexible, get_vaults_stats, increment_flexible_total_distributed_rewards_principal,
}
use dollar.Vaults.Rewards.{pay_rewards, claim_rewards}
use dollar.Vaults.Walk.{walk_rewards}
use dollar.Vaults.Unlock.{position_account, claim_flexible, shrink_position, unlock_position}
use dollar.Vaults.Backing.Shrinking.{shrunk}

-- The positions and the total flexible principal of a state.
abbrev pub Stored : {Chain : Type 0} → Map PositionKey Position → Option ℤ → World Chain → Type 0
Stored m t w = (w.vaults.positions ≡ m) × (w.vaults.total_flexible_principal ≡ t)

module _ {Chain Decimal : Type 0} (env : Env Chain Decimal) (m : Map PositionKey Position)
    (t : Option ℤ) where
  abbrev P : World Chain → Type 0
  P = Stored m t

  pub Stored-IsStable : IsStable P
  Stored-IsStable = record {
    untouched = record { principal = λ w b h. h; stats = λ w s h. h };
    chain = λ w c h. h;
  }

  distributed-Preserves :
      (n : ℤ)
      → Preserves P (increment_flexible_total_distributed_rewards_principal {Chain = Chain} n)
  unfolding increment_flexible_total_distributed_rewards_principal
  distributed-Preserves n =
      bind-Preserves P {B = Unit {0}} get_vaults_stats (get_item-Preserves P _)
        (λ s. record { keeps = λ w h. h })

  pay_rewards-Preserves :
      (user : Bytes) (e : PositionEntry) (n : ℤ) → Preserves P (pay_rewards env user e n)
  unfolding pay_rewards
  pay_rewards-Preserves user e n =
      bind-Preserves P {B = ℤ} (get_item (λ w. w.dollar.index)) (get_item-Preserves P _) (λ i.
        bind-Preserves P {B = ℤ} (lift (get_principal_amount_rounded_down n e.index))
          (reads-Preserves P _)
          (λ p.
            bind-Preserves P {A = Map ℤ Reward × ℤ} {B = ℤ}
              (λ w. (walk_rewards env e.index i p w.vaults.rewards, w)) (reads-Preserves P _)
              (λ walked.
                bind-Preserves P {B = ℤ} (set_vaults (λ v. record v { rewards = walked.0 }))
                  (record { keeps = λ w h. h })
                  (λ _.
                    bind-Preserves P {B = ℤ} (lift (env.new_coins walked.1)) (reads-Preserves P _)
                      (λ coins.
                        bind-Preserves P {B = ℤ}
                          (send_coins env (env.new_module_address flexible_vault_name) e.address
                            coins)
                          (send_coins-Preserves env P Stored-IsStable _ _ coins)
                          (λ _.
                            bind-Preserves P {B = ℤ} (emit (reward_claimed user walked.1))
                              (record { keeps = λ w h. h })
                              (λ _. reads-Preserves P (λ _. ok walked.1))))))))

  pub claim_rewards-Preserves : (e : PositionEntry) (n : ℤ) → Preserves P (claim_rewards env e n)
  unfolding claim_rewards
  claim_rewards-Preserves e n =
      bind-Preserves P {B = ℤ} (or_throw (env.bytes_to_string e.address) bad_address)
        (or_throw-Preserves P _ _)
        (λ user.
          bind-Preserves P {B = ℤ} (gets (principal_of (flexible_vault_address env)))
            (reads-Preserves P _)
            (λ n'.
              if-Preserves P (is_positive n') (pay_rewards-Preserves user e n)
                (reads-Preserves P (λ _. ok (pos 0)))))

  earned-Preserves :
      (signer : Bytes) (vault r : ℤ) (e : PositionEntry)
      → Preserves P (
          claim_rewards env e r >>= λ rewards.
          increment_flexible_total_distributed_rewards_principal rewards
          >> (claim_module_yield env (position_account env signer vault e) >>= λ yield.
              pure (if is_positive yield then r +ℤ yield else r)))
  earned-Preserves signer vault r e =
      bind-Preserves P {B = ℤ} (claim_rewards env e r) (claim_rewards-Preserves e r) (λ rewards.
        bind-Preserves P {B = ℤ} (increment_flexible_total_distributed_rewards_principal rewards)
          (distributed-Preserves rewards)
          (λ _.
            bind-Preserves P {B = ℤ} (claim_module_yield env (position_account env signer vault e))
              (claim_module_yield-Preserves env P Stored-IsStable _)
              (λ yield. reads-Preserves P (λ _. ok (if is_positive yield then r +ℤ yield else r)))))

-- The total after a round in a vault.
abbrev pub total_after : ℤ → ℤ → Option ℤ → Option ℤ
total_after vault p t = if eqb_ℤ vault flexible then some (or_zero t -ℤ p) else t

shrink_position-Ensures :
    {Chain : Type 0} (m : Map PositionKey Position) (t : Option ℤ) (e : PositionEntry) (r p : ℤ)
    → Ensures (Stored {Chain = Chain} m t) (shrink_position e r p) (λ _. Stored (shrunk e r p m) t)
unfolding shrink_position
shrink_position-Ensures m t e r p = elim (Bool-cases (leb_ℤ e.amount r)) [
  | inl c ↦ rw c (modify-Ensures (Stored m t) _ (λ w (a, b). (rw a refl, b)))
  | inr c ↦ rw c (modify-Ensures (Stored m t) _ (λ w (a, b). (rw a refl, b)))
]

module _ {Chain Decimal : Type 0} (env : Env Chain Decimal) (addr signer : Bytes) (vault : ℤ)
    (e : PositionEntry) (r : ℤ) (m : Map PositionKey Position) (t : Option ℤ) where
  claim_flexible-Ensures :
      (p : ℤ)
      → Ensures
          (Stored m t)
          (claim_flexible env signer vault e r p)
          (λ _. Stored m (some (or_zero t -ℤ p)))
  unfolding claim_flexible
  claim_flexible-Ensures p =
      bind-Ensures (Stored m t) {B = ℤ}
        (set_vaults (λ v. record v {
          total_flexible_principal = some (or_zero v.total_flexible_principal -ℤ p);
        }))
        (λ _. Stored m (some (or_zero t -ℤ p)))
        (modify-Ensures (Stored m t) _ (λ w (a, b). (a, rw b refl)))
        (λ _.
          keeps-Ensures (Stored m (some (or_zero t -ℤ p))) _
            (earned-Preserves env m (some (or_zero t -ℤ p)) signer vault r e))

  amount_to_send-Ensures :
      (p : ℤ)
      → Ensures
          (Stored m t)
          (if eqb_ℤ vault flexible then claim_flexible env signer vault e r p else pure r)
          (λ _. Stored m (total_after vault p t))
  amount_to_send-Ensures p = elim (Bool-cases (eqb_ℤ vault flexible)) [
    | inl c ↦ rw c (claim_flexible-Ensures p)
    | inr c ↦ rw c (keeps-Ensures (Stored m t) _ (reads-Preserves (Stored m t) (λ _. ok r)))
  ]

  -- A round that returns has removed the principal of the amount, rounded down.
  pub unlock_position-Ensures :
      Ensures (Stored m t) (unlock_position env addr signer vault e r) (λ p w.
        (get_principal_amount_rounded_down r e.index ≡ ok p)
        × Stored (shrunk e r p m) (total_after vault p t) w)
  unfolding unlock_position
  unlock_position-Ensures =
      bind-Ensures (Stored m t) {B = ℤ} (lift (get_principal_amount_rounded_down r e.index))
        (λ p w. (get_principal_amount_rounded_down r e.index ≡ ok p) × Stored m t w)
        (lift-Ensures (Stored m t) _)
        (λ p.
          let Q : World Chain → Type 0 = Stored m (total_after vault p t) in
          let Q' : World Chain → Type 0 = Stored (shrunk e r p m) (total_after vault p t) in
          let stable = Stored-IsStable env m (total_after vault p t) in
          fact-Ensures (Stored m t) _ (λ down_is.
            bind-Ensures (Stored m t) {B = ℤ}
              (if eqb_ℤ vault flexible then claim_flexible env signer vault e r p else pure r)
              (λ _. Q) (amount_to_send-Ensures p)
              (λ a.
                bind-Ensures Q {B = ℤ} (lift (env.new_coins a)) (λ _. Q)
                  (keeps-Ensures Q _ (reads-Preserves Q _))
                  (λ coins.
                    bind-Ensures Q {B = ℤ}
                      (send_coins env (position_account env signer e.vault e) addr coins) (λ _. Q)
                      (keeps-Ensures Q _ (send_coins-Preserves env Q stable _ _ coins))
                      (λ _.
                        bind-Ensures Q {B = ℤ} (shrink_position e r p) (λ _. Q')
                          (shrink_position-Ensures m (total_after vault p t) e r p)
                          (λ _.
                            bind-Ensures Q' {B = ℤ}
                              (emit (position_unlocked signer vault e.index a p)) (λ _. Q')
                              (keeps-Ensures Q' _ (record { keeps = λ w h. h }))
                              (λ _. pure-Ensures Q' p (λ w h. (down_is, h)))))))))
