-- ===== src/Vaults/Ending.antt =====
-- The end of the first season in the begin blocker (keeper/abci.go).
use dollar.Base.{◌≡◌, refl, true, inl, inr, Bool-cases}
use dollar.Base.Int.{ltb_ℤ}
use dollar.Types.{Result, ok, err, panic}
use dollar.Types.Store.{World}
use dollar.Types.Env.{Env}
use dollar.State.Vaults.{is_vaults_season_one_ended}
use dollar.Vaults.Season.{end_vaults_season_one, commit, begin_blocker}

module _ {Chain : Type 0} (w : World Chain) where
  commit-marks :
      (r : Result (Unit {0}) × World Chain) → is_vaults_season_one_ended (commit w r).1 ≡ true
  unfolding is_vaults_season_one_ended
  commit-marks (ok a, after) = refl
  commit-marks (err e, after) = refl
  commit-marks (panic, after) = refl

module _ {Chain Decimal : Type 0} (env : Env Chain Decimal) (w : World Chain) where
  ends :
      ltb_ℤ env.vaults_season_one_end_timestamp env.unix_time ≡ true
      → is_vaults_season_one_ended (begin_blocker env w).1 ≡ true
  unfolding begin_blocker
  ends late = elim (Bool-cases (is_vaults_season_one_ended w)) [
    | inl e ↦ rw (late, e) e
    | inr e ↦ rw (late, e) (commit-marks w (end_vaults_season_one env w))
  ]

begin_blocker-ended :
    {Chain Decimal : Type 0} (env : Env Chain Decimal) (w : World Chain)
    → ltb_ℤ env.vaults_season_one_end_timestamp env.unix_time ≡ true
    → is_vaults_season_one_ended w ≡ true
    → begin_blocker env w ≡ (ok tt, w)
unfolding begin_blocker
begin_blocker-ended env w late e = rw (late, e) refl

module _ {Chain Decimal : Type 0} (env : Env Chain Decimal) (w : World Chain) where
  -- Past the end of the first season, the season is marked as ended after a begin blocker whatever
  -- the unlocking did, an error and a panic included, so that the next begin blocker does nothing.
  pub begin_blocker-once :
      ltb_ℤ env.vaults_season_one_end_timestamp env.unix_time ≡ true
      → (is_vaults_season_one_ended (begin_blocker env w).1 ≡ true)
        × (begin_blocker env (begin_blocker env w).1 ≡ (ok tt, (begin_blocker env w).1))
  begin_blocker-once late =
      (ends env w late, begin_blocker-ended env (begin_blocker env w).1 late (ends env w late))
