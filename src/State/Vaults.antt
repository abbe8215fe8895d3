-- ===== src/State/Vaults.antt =====
-- keeper/state_vaults.go
use dollar.Base.{◌+◌, ◌-◌, ◌%◌, ◌^◌, Bool, ◌&&◌, Option, none, some, List, [], ◌∷◌, if◌then◌else◌}
use dollar.Base.Int.{ℤ, pos, ◌+ℤ◌, ◌-ℤ◌, eqb_ℤ}
use dollar.Base.Bytes.{Bytes, bytes_eq}
use dollar.Base.Map.{Map}
use dollar.Types.{M, get_item, ◌>>=◌}
use dollar.Types.Store.{World, VaultsStats, PositionKey, Position, PositionEntry}
use dollar.State.Names.{set_vaults}
use dollar.State.Dollar.{or_false}

-- The numbers of `VaultType` and `PausedType`.
abbrev pub staked : ℤ
staked = pos 1

abbrev pub flexible : ℤ
flexible = pos 2

abbrev pub lock_paused : ℤ
lock_paused = pos 1

abbrev pub unlock_paused : ℤ
unlock_paused = pos 2

abbrev pub all_paused : ℤ
all_paused = pos 3

abbrev pub entry : PositionKey → Position → PositionEntry
entry (address, (vault, time)) p = record {
  address = address;
  vault = vault;
  principal = p.principal;
  index = p.index;
  amount = p.amount;
  time = p.time;
}

-- All positions, in the order of their keys.
unfoldable pub get_vaults_positions : Map PositionKey Position → List PositionEntry
get_vaults_positions [] = []
get_vaults_positions ((key, p) ∷ m) = entry key p ∷ get_vaults_positions m

-- The positions of one address, and of one address in one vault.
unfoldable pub get_vaults_positions_by_provider :
    Bytes → Map PositionKey Position → List PositionEntry
get_vaults_positions_by_provider provider [] = []
get_vaults_positions_by_provider provider ((key, p) ∷ m) =
    let rest = get_vaults_positions_by_provider provider m in
    if bytes_eq key.0 provider then entry key p ∷ rest else rest

unfoldable pub get_vaults_positions_by_provider_and_vault :
    Bytes → ℤ → Map PositionKey Position → List PositionEntry
get_vaults_positions_by_provider_and_vault provider vault [] = []
get_vaults_positions_by_provider_and_vault provider vault ((key, p) ∷ m) =
    let rest = get_vaults_positions_by_provider_and_vault provider vault m in
    if bytes_eq key.0 provider && eqb_ℤ key.1.0 vault then entry key p ∷ rest else rest

abbrev pub plus_distributed : Option ℤ → ℤ → ℤ
plus_distributed none amount = amount
plus_distributed (some total) amount = total +ℤ amount

module _ {Chain : Type 0} where
  unfoldable pub get_vaults_paused : World Chain → ℤ
  get_vaults_paused w = elim w.vaults.paused [ none ↦ pos 0 | some p ↦ p ]

  unfoldable pub is_vaults_season_one_ended : World Chain → Bool
  is_vaults_season_one_ended w = or_false w.vaults.season_one_ended

  abbrev pub get_vaults_stats : M (World Chain) VaultsStats
  get_vaults_stats = get_item (λ w. w.vaults.stats)

  abbrev pub set_vaults_stats : VaultsStats → M (World Chain) (Unit {0})
  set_vaults_stats s = set_vaults (λ v. record v { stats = some s })

  -- The user counts are uint64 and wrap.
  unfoldable pub increment_vault_users : ℤ → M (World Chain) (Unit {0})
  increment_vault_users vault = do
    stats ← get_vaults_stats
    set_vaults_stats (
        if eqb_ℤ vault staked
        then record stats { staked_total_users = (stats.staked_total_users + 1) % 2 ^ 64 }
        else if eqb_ℤ vault flexible
        then record stats { flexible_total_users = (stats.flexible_total_users + 1) % 2 ^ 64 }
        else stats)

  unfoldable pub decrement_vault_users : ℤ → M (World Chain) (Unit {0})
  decrement_vault_users vault = do
    stats ← get_vaults_stats
    set_vaults_stats (
        if eqb_ℤ vault staked
        then record stats { staked_total_users = (stats.staked_total_users + 2 ^ 64 - 1) % 2 ^ 64 }
        else if eqb_ℤ vault flexible
        then record stats {
          flexible_total_users = (stats.flexible_total_users + 2 ^ 64 - 1) % 2 ^ 64;
        }
        else stats)

  unfoldable pub increment_vault_total_principal : ℤ → ℤ → M (World Chain) (Unit {0})
  increment_vault_total_principal vault amount = do
    stats ← get_vaults_stats
    set_vaults_stats (
        if eqb_ℤ vault staked
        then record stats { staked_total_principal = stats.staked_total_principal +ℤ amount }
        else if eqb_ℤ vault flexible
        then record stats { flexible_total_principal = stats.flexible_total_principal +ℤ amount }
        else stats)

  unfoldable pub decrement_vault_total_principal : ℤ → ℤ → M (World Chain) (Unit {0})
  decrement_vault_total_principal vault amount = do
    stats ← get_vaults_stats
    set_vaults_stats (
        if eqb_ℤ vault staked
        then record stats { staked_total_principal = stats.staked_total_principal -ℤ amount }
        else if eqb_ℤ vault flexible
        then record stats { flexible_total_principal = stats.flexible_total_principal -ℤ amount }
        else stats)

  unfoldable pub increment_flexible_total_distributed_rewards_principal :
      ℤ → M (World Chain) (Unit {0})
  increment_flexible_total_distributed_rewards_principal amount = do
    stats ← get_vaults_stats
    set_vaults_stats (record stats {
      flexible_total_distributed_rewards_principal =
          some (plus_distributed stats.flexible_total_distributed_rewards_principal amount);
    })
