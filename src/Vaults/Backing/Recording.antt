-- ===== src/Vaults/Backing/Recording.antt =====
-- The write of a position by `Lock` (keeper/msg_server_vaults.go) and the books of the positions.
use dollar.Base.{◌≡◌, refl, ◌==◌, Option, none, some, Bool-cases, inl, inr, length, if◌then◌else◌}
use dollar.Base.Int.{ℤ, ◌+ℤ◌, eqb_ℤ, int_laws}
use dollar.Base.Bytes.{Bytes}
use dollar.Base.Key.{int_key, bytes_key, pair_key}
use dollar.Base.Map.{Map, lookup, insert}
use dollar.Base.Map.Unique.{insert-Distinct, lookup-insert-some}
use dollar.Base.Map.Laws.{weigh-insert}
use dollar.Types.{gets, when, Preserves, get_item-Preserves}
use dollar.Types.Rules.{
  bind-Preserves, reads-Preserves, when-Preserves, Ensures, bind-Ensures, keeps-Ensures,
  modify-Ensures,
}
use dollar.Types.Store.{World, PositionKey, Position}
use dollar.Types.Env.{Env}
use dollar.State.Names.{set_vaults}
use dollar.State.Dollar.{or_zero}
use dollar.State.Vaults.{
  flexible, get_vaults_stats, get_vaults_positions_by_provider_and_vault, increment_vault_users,
  increment_vault_total_principal,
}
use dollar.Vaults.Lock.{add_total_flexible_principal, record_position}
use dollar.Vaults.Backing.Shrinking.{Books, IsCovering, weight}
use dollar.Vaults.Backing.Rounds.{Stored}

-- A new position that covers its amount, with its principal in the total.
pub locked-Books :
    (m : Map PositionKey Position) (total : ℤ) (key : PositionKey) (p : Position)
    → Books m total
    → lookup key m ≡ none
    → p.time ≡ key.1.1
    → IsCovering p
    → Books (insert key p m) (total +ℤ weight key p)
locked-Books m total key p books fresh time covers = record {
  distinct = insert-Distinct key p m books.distinct;
  timed = λ j q e. elim (lookup-insert-some key j p q m e) [
    | inl (same, new) ↦ cc
    | inr (_, old) ↦ books.timed j q old
  ];
  covering = λ j q e. elim (lookup-insert-some key j p q m e) [
    | inl (same, new) ↦ rw new at covers
    | inr (_, old) ↦ books.covering j q old
  ];
  held =
      let moved = rw fresh at (weigh-insert weight key p m) in grind (int_laws, moved, books.held);
}

module _ {Chain Decimal : Type 0} (env : Env Chain Decimal) (addr : Bytes)
    (vault amount index principal : ℤ) (m : Map PositionKey Position) (t : Option ℤ) where
  abbrev pub new_key : PositionKey
  new_key = (addr, (vault, env.unix_time))

  abbrev pub new_position : Position
  new_position = record {
    principal = principal;
    index = index;
    amount = amount;
    time = env.unix_time;
  }

  -- The total after a lock in a vault.
  abbrev pub raised_total : Option ℤ
  raised_total = if eqb_ℤ vault flexible then some (or_zero t +ℤ principal) else t

  abbrev pub Recorded : World Chain → Type 0
  Recorded = Stored (insert new_key new_position m) raised_total

  increment_vault_users-Preserves : Preserves Recorded (increment_vault_users {Chain = Chain} vault)
  unfolding increment_vault_users
  increment_vault_users-Preserves =
      bind-Preserves Recorded {B = Unit {0}} get_vaults_stats (get_item-Preserves Recorded _)
        (λ s. record { keeps = λ w h. h })

  increment_vault_total_principal-Preserves :
      Preserves Recorded (increment_vault_total_principal {Chain = Chain} vault principal)
  unfolding increment_vault_total_principal
  increment_vault_total_principal-Preserves =
      bind-Preserves Recorded {B = Unit {0}} get_vaults_stats (get_item-Preserves Recorded _)
        (λ s. record { keeps = λ w h. h })

  total-Ensures :
      Ensures
        (Stored {Chain = Chain} (insert new_key new_position m) t)
        (when (eqb_ℤ vault flexible) (add_total_flexible_principal env principal))
        (λ _. Recorded)
  unfolding add_total_flexible_principal
  total-Ensures = elim (Bool-cases (eqb_ℤ vault flexible)) [
    | inl c ↦
        rw c
          (modify-Ensures (Stored (insert new_key new_position m) t) _ (λ w (a, b). (a, rw b refl)))
    | inr c ↦
        rw c
          (keeps-Ensures (Stored (insert new_key new_position m) t) _ (record { keeps = λ w h. h }))
  ]

  pub record_position-Ensures :
      Ensures (Stored m t) (record_position env addr vault amount index principal) (λ _. Recorded)
  unfolding record_position
  record_position-Ensures =
      bind-Ensures (Stored m t) {B = Unit {0}}
        (set_vaults (λ v. record v { positions = insert new_key new_position v.positions }))
        (λ _. Stored (insert new_key new_position m) t)
        (modify-Ensures (Stored m t) _ (λ w (a, b). (rw a refl, b)))
        (λ _.
          bind-Ensures (Stored (insert new_key new_position m) t) {B = Unit {0}}
            (when (eqb_ℤ vault flexible) (add_total_flexible_principal env principal))
            (λ _. Recorded) total-Ensures
            (λ _. keeps-Ensures Recorded _ (
              bind-Preserves Recorded {B = Unit {0}}
                (gets
                  (λ w. get_vaults_positions_by_provider_and_vault addr vault w.vaults.positions))
                (reads-Preserves Recorded _)
                (λ ps.
                  bind-Preserves Recorded {B = Unit {0}}
                    (when (length ps == 1) (increment_vault_users vault))
                    (when-Preserves Recorded (length ps == 1) increment_vault_users-Preserves)
                    (λ _. increment_vault_total_principal-Preserves)))))
