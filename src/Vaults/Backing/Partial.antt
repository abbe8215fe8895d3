-- ===== src/Vaults/Backing/Partial.antt =====
-- A user whose rewards cannot be paid at the end of the first season (keeper/msg_server_vaults.go,
-- `endVaultsSeasonOne`), and the books of the positions.
use dollar.Base.{◌≡◌, refl, ap, false, some, List, ◌∷◌, arith}
use dollar.Base.Int.{ℤ, pos, ◌-ℤ◌, ◌≤ℤ◌, ◌<ℤ◌, is_zero, int_laws}
use dollar.Base.Bytes.{Bytes}
use dollar.Base.Map.{Map}
use dollar.Base.Key.{int_key, bytes_key, pair_key}
use dollar.Base.Map.Laws.{weigh}
use dollar.Types.{Error, ok, err}
use dollar.Types.Store.{World, PositionEntry}
use dollar.Types.Env.{Env}
use dollar.Math.{get_principal_amount_rounded_down}
use dollar.State.Dollar.{or_zero}
use dollar.State.Vaults.{flexible}
use dollar.Vaults.Rewards.{claim_rewards}
use dollar.Vaults.Unlock.{
  amount_to_remove, claim_flexible, unlock_position, unlock_loop, check_unlock, unlock_positions,
}
use dollar.Vaults.Guards.{check_unlock-accepts}
use dollar.Vaults.Season.{unlock_users}
use dollar.Vaults.Backing.Shrinking.{weight}
use dollar.Vaults.Backing.Rounds.{claim_rewards-Preserves}
use dollar.Vaults.Backing.Unlocking.{IsBacked}

-- The state with a principal taken from the total flexible principal.
abbrev pub lowered : {Chain : Type 0} → ℤ → World Chain → World Chain
lowered p w = record w {
  vaults = record (w.vaults) {
    total_flexible_principal = some (or_zero w.vaults.total_flexible_principal -ℤ p);
  };
}

module _ {Chain Decimal : Type 0} (env : Env Chain Decimal) (signer addr : Bytes) (total p : ℤ)
    (e : PositionEntry) (es : List PositionEntry) (x : Error) (w w₂ : World Chain)
    (checked : check_unlock env signer flexible total w ≡ (ok (addr, e ∷ es), w))
    (down_is : get_principal_amount_rounded_down (amount_to_remove e total) e.index ≡ ok p)
    (claim : claim_rewards env e (amount_to_remove e total) (lowered p w) ≡ (err x, w₂)) where
  unlock_position_fails :
      unlock_position env addr signer flexible e (amount_to_remove e total) w ≡ (err x, w₂)
  unfolding unlock_position claim_flexible
  unlock_position_fails = rw (down_is, claim) refl

  unlock_positions_fails : unlock_positions env signer flexible total w ≡ (err x, w₂)
  unfolding unlock_positions unlock_loop
  unlock_positions_fails =
      let (_, _, positive, _, _) =
        check_unlock-accepts env signer addr flexible total (e ∷ es) w w checked in
      let some_left : is_zero total ≡ false = ground arith in
      rw (checked, some_left, unlock_position_fails) refl

  -- At the end of the first season, where a user's unlock passes its checks and the claim of the
  -- rewards of the first position fails: the end goes on to the next user from the state that the
  -- failed unlock left, in which all positions stand as before and the total flexible principal has
  -- already lost the principal of the position. So if the flexible positions came to the total
  -- before, and that principal is positive, the books no longer hold.
  pub unlock_users-partial :
      (users : Map Bytes ℤ)
      → weigh weight w.vaults.positions ≡ or_zero w.vaults.total_flexible_principal
      → pos 0 <ℤ p
      → (unlock_users env ((signer, total) ∷ users) w ≡ unlock_users env users w₂)
        × (w₂.vaults.positions ≡ w.vaults.positions)
        × (w₂.vaults.total_flexible_principal
            ≡ some (or_zero w.vaults.total_flexible_principal -ℤ p))
        × (¬ IsBacked w₂)
  unfolding unlock_users
  unlock_users-partial users exact positive =
      let m = w.vaults.positions in
      let t = some (or_zero w.vaults.total_flexible_principal -ℤ p) in
      let (ps, ts) =
        (claim_rewards-Preserves env m t e (amount_to_remove e total)).keeps (lowered p w)
          (refl, refl) in
      let end : (claim_rewards env e (amount_to_remove e total) (lowered p w)).1 ≡ w₂ =
        ap (λ r. r.1) claim in
      let ps' : w₂.vaults.positions ≡ m = rw end at ps in
      let ts' : w₂.vaults.total_flexible_principal ≡ t = rw end at ts in
      (
        rw unlock_positions_fails refl,
        ps',
        ts',
        λ books.
            let held : weigh weight m ≤ℤ or_zero w.vaults.total_flexible_principal -ℤ p =
              rw (ps', ts') at books.held in
            grind (int_laws, exact, held, positive),
      )
