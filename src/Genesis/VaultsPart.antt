-- ===== src/Genesis/VaultsPart.antt =====
-- genesis.go: the vaults' part of the export, imported again.
use dollar.Base.{◌≡◌, refl, ap, some, none, List, [], ◌∷◌, map, Option-cases, inl, inr}
use dollar.Base.Int.{ℤ}
use dollar.Base.Key.{int_key, bytes_key, pair_key}
use dollar.Base.Map.{Map, lookup}
use dollar.Base.Map.Entries.{Distinct}
use dollar.Types.{ok}
use dollar.Types.Store.{World, Vaults, PositionKey, Position, PositionEntry, Reward}
use dollar.State.Dollar.{or_false, or_zero}
use dollar.State.Vaults.{entry, get_vaults_positions, get_vaults_paused, is_vaults_season_one_ended}
use dollar.State.Listing.{get_vaults_rewards, get_vaults_total_flexible_principal}
use dollar.Genesis.Record.{VaultsGenesis, no_vaults_stats}
use dollar.Genesis.Init.{
  init_vaults, read_position, read_reward, put_position, put_reward, set_each,
}
use dollar.Genesis.Export.{export_vaults, or_value, zero_on_error}
use dollar.Genesis.Reading.{set_each-same}
use dollar.Genesis.Listed.{map-Sound, map-Complete}

abbrev pub empty_vaults : Vaults
empty_vaults = record {
  paused = none;
  season_one_ended = none;
  positions = [];
  total_flexible_principal = none;
  rewards = [];
  stats = none;
}

-- The same positions, rewards, pause, season, total and statistics.
pub record SameVaults (v v' : Vaults) : Type 0 where
  pub same_paused : v'.paused ≡ some (or_zero v.paused)
  pub same_season : v'.season_one_ended ≡ some (or_false v.season_one_ended)
  pub same_positions : (key : PositionKey) → lookup key v'.positions ≡ lookup key v.positions
  pub same_total : v'.total_flexible_principal ≡ some (or_zero v.total_flexible_principal)
  pub same_rewards : (index : ℤ) → lookup index v'.rewards ≡ lookup index v.rewards
  pub same_stats : v'.stats ≡ some (or_value no_vaults_stats v.stats)

-- Keys are unique, a position stands under its own time, and a reward under its own index.
pub record OwnKeys (v : Vaults) : Type 0 where
  pub distinct_positions : Distinct v.positions
  pub distinct_rewards : Distinct v.rewards
  pub own_time :
      (key : PositionKey) (p : Position) → lookup key v.positions ≡ some p → p.time ≡ key.1.1
  pub own_index : (index : ℤ) (r : Reward) → lookup index v.rewards ≡ some r → r.index ≡ index

get_vaults_positions-map :
    (m : Map PositionKey Position) → get_vaults_positions m ≡ map (λ e. entry e.0 e.1) m
unfolding get_vaults_positions
get_vaults_positions-map [] = refl
get_vaults_positions-map ((key, p) ∷ m) =
    ap (λ (t : List PositionEntry). entry key p ∷ t) (get_vaults_positions-map m)

get_vaults_rewards-map : (m : Map ℤ Reward) → get_vaults_rewards m ≡ map (λ e. e.1) m
unfolding get_vaults_rewards
get_vaults_rewards-map [] = refl
get_vaults_rewards-map ((key, r) ∷ m) = ap (λ (t : List Reward). r ∷ t) (get_vaults_rewards-map m)

module _ {Chain : Type 0} where
  abbrev pub with_vaults : Vaults → World Chain → World Chain
  with_vaults v w = record w { vaults = v }

  init_vaults-run :
      (g : VaultsGenesis) (n : Map PositionKey Position) (n' : Map ℤ Reward) (w : World Chain)
      → ((w : World Chain)
          → w.vaults.positions ≡ []
          → set_each read_position put_position g.positions w
            ≡ (ok tt, with_vaults (record (w.vaults) { positions = n }) w))
      → ((w : World Chain)
          → w.vaults.rewards ≡ []
          → set_each read_reward put_reward g.rewards w
            ≡ (ok tt, with_vaults (record (w.vaults) { rewards = n' }) w))
      → init_vaults g (with_vaults empty_vaults w) ≡ (
        ok tt,
        with_vaults
            (record {
              paused = some g.paused;
              season_one_ended = some g.season_one_ended;
              positions = n;
              total_flexible_principal = some g.total_flexible_principal;
              rewards = n';
              stats = some g.stats;
            })
            w,
      )
  unfolding init_vaults
  init_vaults-run g n n' w done done' =
      let start : Map PositionKey Position → World Chain = λ positions.
        with_vaults
          (record {
            paused = none;
            season_one_ended = none;
            positions = positions;
            total_flexible_principal = none;
            rewards = [];
            stats = none;
          })
          w in
      rw (done (start []) refl, done' (start n) refl) refl

  paused_or_none : (w : World Chain) → get_vaults_paused w ≡ or_zero w.vaults.paused
  unfolding get_vaults_paused
  paused_or_none w = elim (Option-cases w.vaults.paused) [
    | inl e ↦ rw (e, get_vaults_paused) refl
    | inr (p, e) ↦ rw (e, get_vaults_paused) refl
  ]

  total_or_zero :
      (w : World Chain)
      → zero_on_error (get_vaults_total_flexible_principal w)
        ≡ or_zero w.vaults.total_flexible_principal
  unfolding get_vaults_total_flexible_principal
  total_or_zero w = elim (Option-cases w.vaults.total_flexible_principal) [
    | inl e ↦ rw (e, get_vaults_total_flexible_principal) refl
    | inr (p, e) ↦ rw (e, get_vaults_total_flexible_principal) refl
  ]

module _ {Chain : Type 0} (w w₀ : World Chain) (own : OwnKeys w.vaults) where
  read_positions :
      (n : Map PositionKey Position) × ((w' : World Chain)
        → w'.vaults.positions ≡ []
        → set_each read_position put_position (get_vaults_positions w.vaults.positions) w'
          ≡ (ok tt, with_vaults (record (w'.vaults) { positions = n }) w'))
      × ((key : PositionKey) → lookup key n ≡ lookup key w.vaults.positions)
  read_positions =
      let m = w.vaults.positions in
      let readable : (key : PositionKey) (p : Position)
          → lookup key m ≡ some p
          → read_position (entry key p) ≡ ok (key, p) =
        λ key p e. rw (own.own_time key p e) refl in
      rw (get_vaults_positions-map m) (
        set_each-same read_position (λ w. w.vaults.positions)
          (λ n w. with_vaults (record (w.vaults) { positions = n }) w) (λ n w. refl)
          (λ n n' w. refl) (λ w. refl) m (map (λ e. entry e.0 e.1) m)
          (map-Sound (λ e. entry e.0 e.1) read_position m own.distinct_positions readable)
          (map-Complete (λ e. entry e.0 e.1) read_position m own.distinct_positions readable))

  read_rewards :
      (n : Map ℤ Reward) × ((w' : World Chain)
        → w'.vaults.rewards ≡ []
        → set_each read_reward put_reward (get_vaults_rewards w.vaults.rewards) w'
          ≡ (ok tt, with_vaults (record (w'.vaults) { rewards = n }) w'))
      × ((index : ℤ) → lookup index n ≡ lookup index w.vaults.rewards)
  read_rewards =
      let m = w.vaults.rewards in
      let readable : (index : ℤ) (r : Reward)
          → lookup index m ≡ some r
          → read_reward r ≡ ok (index, r) =
        λ index r e. ap (λ (i : ℤ). ok (i, r)) (own.own_index index r e) in
      rw (get_vaults_rewards-map m) (
        set_each-same read_reward (λ w. w.vaults.rewards)
          (λ n w. with_vaults (record (w.vaults) { rewards = n }) w) (λ n w. refl) (λ n n' w. refl)
          (λ w. refl) m (map (λ e. e.1) m)
          (map-Sound (λ e. e.1) read_reward m own.distinct_rewards readable)
          (map-Complete (λ e. e.1) read_reward m own.distinct_rewards readable))

  -- The export of the vaults, read by a chain whose vaults are empty.
  pub init_vaults-export_vaults :
      (v : Vaults) × (init_vaults (export_vaults w) (with_vaults empty_vaults w₀)
        ≡ (ok tt, with_vaults v w₀))
      × SameVaults w.vaults v
  unfolding export_vaults get_vaults_paused is_vaults_season_one_ended
  init_vaults-export_vaults =
      let (n, done, f) = read_positions in
      let (n', done', f') = read_rewards in
      (
        _,
        init_vaults-run (export_vaults w) n n' w₀ done done',
        record {
          same_paused = ap some (paused_or_none w);
          same_season = refl;
          same_positions = f;
          same_total = ap some (total_or_zero w);
          same_rewards = f';
          same_stats = refl;
        },
      )
