-- ===== src/Vaults/Backing/Unlocking.antt =====
-- `Unlock` (keeper/msg_server_vaults.go) and the books of the positions.
use dollar.Base.{
  Option, ◌≡◌, refl, not, ◌&&◌, ◌||◌, ◌==◌, List, [], ◌∷◌, arith, Bool-cases, inl, inr, length,
}
use dollar.Base.Int.{ℤ, pos, ◌+ℤ◌, ◌-ℤ◌, ◌≤ℤ◌, is_zero, ltb_ℤ, eqb_ℤ, int_laws}
use dollar.Base.Bytes.{Bytes}
use dollar.Types.{
  ok, invalid_amount, action_paused, gets, throw_if, when, throw_if-Preserves, Preserves,
  get_item-Preserves,
}
use dollar.Types.Rules.{
  bind-Preserves, reads-Preserves, when-Preserves, Ensures, bind-Ensures, keeps-Ensures,
  pure-Ensures, fact-Ensures,
}
use dollar.Types.Store.{World, PositionEntry}
use dollar.Types.Env.{Env}
use dollar.State.Dollar.{or_zero}
use dollar.State.Vaults.{
  unlock_paused, all_paused, get_vaults_paused, get_vaults_stats,
  get_vaults_positions_by_provider_and_vault, decrement_vault_users,
  decrement_vault_total_principal, flexible,
}
use dollar.Vaults.Unlock.{
  amount_to_remove, unlock_position, unlock_loop, check_unlock, settle_unlock, unlock_positions,
  unlock,
}
use dollar.Vaults.Removal.{amount_to_remove-min}
use dollar.Vaults.Guards.{check_unlock-accepts}
use dollar.Vaults.Backing.Shrinking.{Books, spent, shrunk-Books}
use dollar.Vaults.Backing.Listing.{
  Listed, shrunk-Listed, get_vaults_positions_by_provider_and_vault-Listed,
}
use dollar.Vaults.Backing.Rounds.{total_after, unlock_position-Ensures}

-- The books of a state's vaults.
abbrev pub IsBacked : {Chain : Type 0} → World Chain → Type 0
IsBacked w = Books w.vaults.positions (or_zero w.vaults.total_flexible_principal)

total_after-spent :
    {vault : ℤ} (e : PositionEntry) (p : ℤ) (t : Option ℤ)
    → e.vault ≡ vault
    → or_zero (total_after vault p t) ≡ or_zero t -ℤ spent e p
total_after-spent {vault} e p t same = elim (Bool-cases (eqb_ℤ vault flexible)) [
  | inl c ↦ rw (same, c) refl
  | inr c ↦ rw (same, c) (omega int_laws)
]

module _ {Chain : Type 0} where
  decrement_vault_users-Preserves :
      (vault : ℤ) → Preserves IsBacked (decrement_vault_users {Chain = Chain} vault)
  unfolding decrement_vault_users
  decrement_vault_users-Preserves vault =
      bind-Preserves IsBacked {B = Unit {0}} get_vaults_stats (get_item-Preserves IsBacked _)
        (λ s. record { keeps = λ w h. h })

  decrement_vault_total_principal-Preserves :
      (vault n : ℤ) → Preserves IsBacked (decrement_vault_total_principal {Chain = Chain} vault n)
  unfolding decrement_vault_total_principal
  decrement_vault_total_principal-Preserves vault n =
      bind-Preserves IsBacked {B = Unit {0}} get_vaults_stats (get_item-Preserves IsBacked _)
        (λ s. record { keeps = λ w h. h })

module _ {Chain Decimal : Type 0} (env : Env Chain Decimal) (addr signer : Bytes) (vault : ℤ) where
  abbrev Walks : List PositionEntry → World Chain → Type 0
  Walks es w = IsBacked w × Listed vault es w.vaults.positions

  round-Walks :
      (e : PositionEntry) (es : List PositionEntry) (remaining : ℤ)
      → pos 0 ≤ℤ remaining
      → Ensures
          (Walks (e ∷ es))
          (unlock_position env addr signer vault e (amount_to_remove e remaining))
          (λ _. Walks es)
  round-Walks e es remaining h = record {
    ensures = λ w (books, (found, same, fresh, l)) p w' run.
        let m = w.vaults.positions in
        let t = w.vaults.total_flexible_principal in
        let amount = amount_to_remove e remaining in
        let (down_is, (ps, ts)) =
          (unlock_position-Ensures env addr signer vault e amount m t).ensures w (refl, refl) p w'
            run in
        let fair = books.covering _ _ found in
        let low : pos 0 ≤ℤ amount =
          grind (int_laws, amount_to_remove-min e remaining, fair.of_amount) in
        let high : amount ≤ℤ e.amount = grind (int_laws, amount_to_remove-min e remaining) in
        let kept = shrunk-Books m (or_zero t) e amount p books found low high down_is in
        (
          rw (ps, ts, total_after-spent e p t same) kept,
          rw ps (shrunk-Listed vault e amount p es m fresh l),
        );
  }

  unlock_loop-IsBacked :
      (es : List PositionEntry) (remaining removed : ℤ)
      → pos 0 ≤ℤ remaining
      → Ensures (Walks es) (unlock_loop env addr signer vault es remaining removed) (λ _. IsBacked)
  unfolding unlock_loop
  unlock_loop-IsBacked [] remaining removed h =
      pure-Ensures (Walks []) (remaining, removed) (λ w (books, l). books)
  unlock_loop-IsBacked (e ∷ es) remaining removed h = elim (Bool-cases (is_zero remaining)) [
    | inl z ↦ rw z (pure-Ensures (Walks (e ∷ es)) (remaining, removed) (λ w (books, l). books))
    | inr z ↦
        let left : pos 0 ≤ℤ remaining -ℤ amount_to_remove e remaining =
          grind (int_laws, amount_to_remove-min e remaining) in
        rw z (
          bind-Ensures (Walks (e ∷ es)) {B = ℤ × ℤ}
            (unlock_position env addr signer vault e (amount_to_remove e remaining)) (λ _. Walks es)
            (round-Walks e es remaining h)
            (λ p.
              unlock_loop-IsBacked es (remaining -ℤ amount_to_remove e remaining) (removed +ℤ p)
                left))
  ]

  settle_unlock-Preserves :
      (removed : ℤ) → Preserves IsBacked (settle_unlock env addr vault removed)
  unfolding settle_unlock
  settle_unlock-Preserves removed =
      bind-Preserves IsBacked {B = Unit {0}}
        (gets (λ w. get_vaults_positions_by_provider_and_vault addr vault w.vaults.positions))
        (reads-Preserves IsBacked _)
        (λ ps.
          bind-Preserves IsBacked {B = Unit {0}}
            (when (length ps == 0) (decrement_vault_users vault))
            (when-Preserves IsBacked (length ps == 0) (decrement_vault_users-Preserves vault))
            (λ _. decrement_vault_total_principal-Preserves vault removed))

module _ {Chain Decimal : Type 0} (env : Env Chain Decimal) (signer : Bytes)
    (vault amount : ℤ) where
  -- What the checks of an unlock hand on.
  abbrev Checked : Bytes × List PositionEntry → World Chain → Type 0
  Checked (addr, ps) w = (pos 0 ≤ℤ amount) × Walks env addr signer vault ps w

  check_unlock-Checked : Ensures IsBacked (check_unlock env signer vault amount) Checked
  check_unlock-Checked = record {
    ensures = λ w books (addr, ps) w' run.
        let (same, listed, positive, _, _) =
          check_unlock-accepts env signer addr vault amount ps w w' run in
        rw (same, listed)
          (
            omega arith,
            (
              books,
              get_vaults_positions_by_provider_and_vault-Listed addr vault w.vaults.positions
                  books.distinct books.timed,
            ),
          );
  }

  pub unlock_positions-IsBacked :
      Ensures IsBacked (unlock_positions env signer vault amount) (λ _. IsBacked)
  unfolding unlock_positions
  unlock_positions-IsBacked =
      bind-Ensures IsBacked {A = Bytes × List PositionEntry} {B = Unit {0}}
        (check_unlock env signer vault amount) Checked check_unlock-Checked
        (λ (addr, ps). fact-Ensures (Walks env addr signer vault ps) _ (λ low.
          bind-Ensures (Walks env addr signer vault ps) {A = ℤ × ℤ} {B = Unit {0}}
            (unlock_loop env addr signer vault ps amount (pos 0)) (λ _. IsBacked)
            (unlock_loop-IsBacked env addr signer vault ps amount (pos 0) low)
            (λ (remaining, removed). keeps-Ensures IsBacked _ (
              bind-Preserves IsBacked {B = Unit {0}}
                (throw_if (not (is_zero remaining)) invalid_amount)
                (throw_if-Preserves IsBacked _ _)
                (λ _. settle_unlock-Preserves env addr signer vault removed)))))

-- An unlock that succeeds keeps the books: no key stands twice, the positions stand under their own
-- times and have at least the principal of their amounts at their indices, and the flexible ones
-- together have no more principal than the total flexible principal, by which rewards are shared.
pub unlock-IsBacked :
    {Chain Decimal : Type 0} (env : Env Chain Decimal) (signer : Bytes) (vault amount : ℤ)
    (w w' : World Chain)
    → IsBacked w
    → unlock env signer vault amount w ≡ (ok tt, w')
    → IsBacked w'
unfolding unlock
unlock-IsBacked env signer vault amount w w' books run =
    (bind-Ensures IsBacked {B = Unit {0}}
        (throw_if (eqb_ℤ vault flexible && ltb_ℤ env.vaults_season_one_end_timestamp env.unix_time)
          action_paused)
        (λ _. IsBacked) (keeps-Ensures IsBacked _ (throw_if-Preserves IsBacked _ _))
        (λ _.
          bind-Ensures IsBacked {B = Unit {0}} (gets get_vaults_paused) (λ _. IsBacked)
            (keeps-Ensures IsBacked _ (reads-Preserves IsBacked _))
            (λ paused.
              bind-Ensures IsBacked {B = Unit {0}}
                (throw_if (eqb_ℤ paused all_paused || eqb_ℤ paused unlock_paused) action_paused)
                (λ _. IsBacked) (keeps-Ensures IsBacked _ (throw_if-Preserves IsBacked _ _))
                (λ _. unlock_positions-IsBacked env signer vault amount)))).ensures
      w books tt w' run
