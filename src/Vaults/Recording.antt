-- ===== src/Vaults/Recording.antt =====
-- The position and the totals that `Lock` (keeper/msg_server_vaults.go) records.
use dollar.Base.{◌≡◌, refl, some, ◌==◌, length, Bool-cases, inl, inr}
use dollar.Base.Int.{ℤ, ◌+ℤ◌}
use dollar.Base.Bytes.{Bytes}
use dollar.Base.Key.{int_key, bytes_key, pair_key}
use dollar.Base.Map.{lookup, insert}
use dollar.Base.Map.Laws.{lookup-insert_self}
use dollar.Types.{ok}
use dollar.Types.Store.{World, VaultsStats, Position, PositionKey}
use dollar.Types.Env.{Env}
use dollar.State.Dollar.{or_zero}
use dollar.State.Vaults.{
  flexible, get_vaults_positions_by_provider_and_vault, increment_vault_users,
  increment_vault_total_principal,
}
use dollar.Vaults.Lock.{add_total_flexible_principal, record_position}

module _ {Chain Decimal : Type 0} (env : Env Chain Decimal) (addr : Bytes)
    (amount index principal : ℤ) where
  -- Where the statistics are there, recording a flexible position always succeeds: the position is
  -- stored under its key with the values given, and the total flexible principal and the flexible
  -- total of the statistics rise by its principal, while the staked total stays.
  pub record_position-flexible :
      (s : VaultsStats) (w : World Chain)
      → w.vaults.stats ≡ some s
      → (w' : World Chain) × (s' : VaultsStats) × (record_position env addr flexible amount index
            principal w
          ≡ (ok tt, w'))
        × (lookup {K = PositionKey} (addr, (flexible, env.unix_time)) w'.vaults.positions
            ≡ some (record {
              principal = principal;
              index = index;
              amount = amount;
              time = env.unix_time;
            }))
        × (w'.vaults.total_flexible_principal
            ≡ some (or_zero w.vaults.total_flexible_principal +ℤ principal))
        × (w'.vaults.stats ≡ some s')
        × (s'.flexible_total_principal ≡ s.flexible_total_principal +ℤ principal)
        × (s'.staked_total_principal ≡ s.staked_total_principal)
  unfolding record_position increment_vault_users increment_vault_total_principal
      add_total_flexible_principal
  record_position-flexible s w stats =
      let key : PositionKey = (addr, (flexible, env.unix_time)) in
      let position : Position = record {
        principal = principal;
        index = index;
        amount = amount;
        time = env.unix_time;
      } in
      let positions = insert key position w.vaults.positions in
      let stored = lookup-insert_self key position w.vaults.positions in
      elim (Bool-cases
        (length (get_vaults_positions_by_provider_and_vault addr flexible positions) == 1)) [
          | inl c ↦ rw (c, stats) (_, _, refl, stored, refl, refl, refl, refl)
          | inr c ↦ rw (c, stats) (_, _, refl, stored, refl, refl, refl, refl)
        ]
