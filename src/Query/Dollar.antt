-- ===== src/Query/Dollar.antt =====
-- keeper/query_server.go
use dollar.Base.{Bool, Option}
use dollar.Base.Int.{ℤ, pos}
use dollar.Base.Bytes.{Bytes}
use dollar.Types.{
  M, bad_address, invalid_request, pure, lift, gets, get_item, or_throw, ◌>>=◌, ◌>>◌,
}
use dollar.Types.Store.{World, Stats}
use dollar.Types.Env.{Env}
use dollar.Restriction.{principal_of}
use dollar.State.Dollar.{get_paused}
use dollar.Yield.{get_yield}

-- `if req == nil { return nil, types.ErrInvalidRequest }`
abbrev pub asked : {W A : Type 0} → Option A → M W A
asked req = or_throw req invalid_request

module _ {Chain Decimal : Type 0} (env : Env Chain Decimal) where
  unfoldable pub query_index : Option (Unit {0}) → M (World Chain) Decimal
  query_index req = do
    asked req
    raw_index ← get_item (λ w. w.dollar.index)
    lift (env.dec_quo_int (env.dec_from_int raw_index) (pos 1_000_000_000_000))

  unfoldable pub query_paused : Option (Unit {0}) → M (World Chain) Bool
  query_paused req = do asked req; gets get_paused

  unfoldable pub query_principal : Option Bytes → M (World Chain) ℤ
  query_principal req = do
    account ← asked req
    bz ← or_throw (env.string_to_bytes account) bad_address
    gets (principal_of bz)

  unfoldable pub query_yield : Option Bytes → M (World Chain) ℤ
  query_yield req = do account ← asked req; (yield, bz) ← get_yield env account; pure yield

  unfoldable pub query_stats : Option (Unit {0}) → M (World Chain) Stats
  query_stats req = do asked req; get_item (λ w. w.dollar.stats)
