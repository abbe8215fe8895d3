-- ===== src/Query/External.antt =====
-- keeper/query_server_v2.go
use dollar.Base.{ℕ, Option, none, some, [], ◌∷◌}
use dollar.Base.Int.{ℤ, pos}
use dollar.Base.Bytes.{Bytes, codes}
use dollar.Base.Key.{int_key, bytes_key, pair_key}
use dollar.Base.Map.{Map, lookup}
use dollar.Types.{
  M, Result, ok, err, panic, no_recipient, pure, lift, gets, get_item, or_throw, ◌>>=◌, ◌>>◌,
}
use dollar.Types.Store.{World, Stats, YieldKey}
use dollar.Types.Env.{Env, ClientState, solomachine, tendermint, other_client}
use dollar.State.Dollar.{ibc, hyperlane, get_retry_amount, or_zero}
use dollar.State.Provider.{parse_yield_recipient_key}
use dollar.State.Listing.{get_total_external_yield, get_yield_recipients, get_retry_amounts}
use dollar.Index.External.{get_hyperlane_router}
use dollar.Vaults.Account.{itoa}
use dollar.Base.Int.{eqb_ℤ}
use dollar.Base.{if◌then◌else◌}
use dollar.Query.Dollar.{asked}

abbrev unknown : Bytes
unknown = codes "UNKNOWN"

pub record ExternalYield : Type 0 where
  pub chain_id : Bytes
  pub amount : ℤ

abbrev client_chain_id : ClientState → Bytes
client_chain_id (solomachine diversifier) = diversifier
client_chain_id (tendermint chain_id) = chain_id
client_chain_id other_client = unknown

-- The domain of the only router; an error gives an unknown chain.
abbrev domain_or_unknown : {W : Type 0} → Result ℕ × W → Result Bytes × W
domain_or_unknown (ok domain, w) = (ok (itoa (pos domain)), w)
domain_or_unknown (err e, w) = (ok unknown, w)
domain_or_unknown (panic, w) = (panic, w)

module _ {Chain Decimal : Type 0} (env : Env Chain Decimal) where
  unfoldable pub get_ibc_chain_id : Bytes → World Chain → Bytes
  get_ibc_chain_id channel_id w = client_chain_id (env.channel_client_state w.chain channel_id)

  unfoldable pub get_hyperlane_chain_id : Bytes → M (World Chain) Bytes
  get_hyperlane_chain_id identifier = elim (env.decode_hex_address identifier) [
    | none ↦ pure unknown
    | some raw_identifier ↦
        λ w. domain_or_unknown (get_hyperlane_router env (env.internal_id raw_identifier) w)
  ]

  abbrev chain_id_of : ℤ → Bytes → M (World Chain) Bytes
  chain_id_of provider identifier =
      if eqb_ℤ provider ibc
      then gets (get_ibc_chain_id identifier)
      else if eqb_ℤ provider hyperlane
      then get_hyperlane_chain_id identifier
      else pure unknown

  -- The response of the loop over the yields of other chains. An amount that does not parse is the
  -- nil integer, which reads as 0.
  unfoldable pub external_yields : Map Bytes Bytes → M (World Chain) (Map Bytes ExternalYield)
  unfolding get_ibc_chain_id get_hyperlane_chain_id
  external_yields [] = pure []
  external_yields ((key, raw_amount) ∷ m) = do
    (provider, identifier) ← lift (parse_yield_recipient_key key)
    chain_id ← chain_id_of provider identifier
    rest ← external_yields m
    pure (
        (key, record { chain_id = chain_id; amount = or_zero (env.int_from_string raw_amount) })
        ∷ rest)

  unfoldable pub query_stats_v2 :
      Option (Unit {0}) → M (World Chain) (Stats × Map Bytes ExternalYield)
  unfolding external_yields
  query_stats_v2 req = do
    asked req
    stats ← get_item (λ w. w.dollar.stats)
    raw_total_external_yield ← gets (get_total_external_yield env)
    total_external_yield ← external_yields raw_total_external_yield
    pure (stats, total_external_yield)

  unfoldable pub query_yield_recipients : Option (Unit {0}) → M (World Chain) (Map Bytes Bytes)
  query_yield_recipients req = do asked req; gets (get_yield_recipients env)

  unfoldable pub query_retry_amounts : Option (Unit {0}) → M (World Chain) (Map Bytes Bytes)
  query_retry_amounts req = do asked req; gets (get_retry_amounts env)

module _ {Chain : Type 0} where
  unfoldable pub query_yield_recipient : Option YieldKey → M (World Chain) Bytes
  query_yield_recipient req = do
    key ← asked req
    found ← gets (λ w. lookup {K = YieldKey} key w.dollar.yield_recipients)
    or_throw found no_recipient

  unfoldable pub query_retry_amount : Option YieldKey → M (World Chain) ℤ
  query_retry_amount req = do
    (provider, identifier) ← asked req
    gets (get_retry_amount provider identifier)
