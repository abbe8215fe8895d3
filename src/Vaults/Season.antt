-- ===== src/Vaults/Season.antt =====
-- keeper/msg_server_vaults.go: `endVaultsSeasonOne`, and keeper/abci.go: `BeginBlocker`.
use dollar.Base.{true, not, ◌&&◌, none, some, List, [], ◌∷◌, if◌then◌else◌}
use dollar.Base.Int.{ℤ, ◌+ℤ◌, ltb_ℤ, eqb_ℤ}
use dollar.Base.Bytes.{Bytes, bytes_eq, bytes_lt}
use dollar.Base.Map.{Map}
use dollar.Types.{M, Result, ok, err, panic, gets, skip, ignore, ◌>>=◌, ◌>>◌}
use dollar.Types.Store.{World, PositionEntry}
use dollar.Types.Env.{Env}
use dollar.State.Vaults.{flexible, get_vaults_positions, is_vaults_season_one_ended}
use dollar.Vaults.Unlock.{unlock_positions}

-- `flexibleUsers[addr] += amount`
unfoldable pub add_amount : Bytes → ℤ → Map Bytes ℤ → Map Bytes ℤ
add_amount addr amount [] = (addr, amount) ∷ []
add_amount addr amount ((a, total) ∷ users) =
    if bytes_eq a addr
    then (a, total +ℤ amount) ∷ users
    else (a, total) ∷ add_amount addr amount users

-- `sort.Strings` of the addresses, each with its total.
unfoldable pub sort_user_in : Bytes × ℤ → Map Bytes ℤ → Map Bytes ℤ
sort_user_in e [] = e ∷ []
sort_user_in e (f ∷ users) =
    let rest = sort_user_in e users in if bytes_lt e.0 f.0 then e ∷ f ∷ users else f ∷ rest

unfoldable pub sort_users : Map Bytes ℤ → Map Bytes ℤ
unfolding sort_user_in
sort_users [] = []
sort_users (e ∷ users) = sort_user_in e (sort_users users)

module _ {Chain : Type 0} where
  abbrev pub mark_ended : World Chain → World Chain
  mark_ended w = record w { vaults = record (w.vaults) { season_one_ended = some true } }

  -- The writes are kept only if there is no error and no panic; a panic is recovered; and the
  -- season is marked as ended in each case.
  abbrev pub commit :
      World Chain → Result (Unit {0}) × World Chain → Result (Unit {0}) × World Chain
  commit before (ok _, after) = (ok tt, mark_ended after)
  commit before (err e, after) = (err e, mark_ended before)
  commit before (panic, after) = (ok tt, mark_ended before)

module _ {Chain Decimal : Type 0} (env : Env Chain Decimal) where
  -- The total of each user's flexible positions; positions of an invalid address are left out.
  unfoldable pub collect_users : List PositionEntry → Map Bytes ℤ → Map Bytes ℤ
  unfolding add_amount
  collect_users [] users = users
  collect_users (position ∷ positions) users = collect_users positions (
      if eqb_ℤ position.vault flexible
      then elim (env.bytes_to_string position.address) [
        | none ↦ users
        | some addr ↦ add_amount addr position.amount users
      ]
      else users)

  -- A user whose positions cannot be unlocked is passed over.
  unfoldable pub unlock_users : Map Bytes ℤ → M (World Chain) (Unit {0})
  unlock_users [] = skip
  unlock_users ((addr, total) ∷ users) = do
    ignore (unlock_positions env addr flexible total)
    unlock_users users

  unfoldable pub end_vaults_season_one : M (World Chain) (Unit {0})
  unfolding collect_users sort_users unlock_users
  end_vaults_season_one = do
    positions ← gets (λ w. get_vaults_positions w.vaults.positions)
    unlock_users (sort_users (collect_users positions []))

  unfoldable pub begin_blocker : M (World Chain) (Unit {0})
  begin_blocker w =
      if ltb_ℤ env.vaults_season_one_end_timestamp env.unix_time
        && not (is_vaults_season_one_ended w)
      then commit w (end_vaults_season_one w)
      else (ok tt, w)
