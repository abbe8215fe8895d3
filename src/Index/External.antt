-- ===== src/Index/External.antt =====
-- keeper/msg_server.go and keeper/msg_server_v2.go: the yield of other chains, over IBC and over
-- Hyperlane.
use dollar.Base.{ℕ, ◌+◌, ◌%◌, ◌^◌, Bool, true, false, List, [], ◌∷◌, if◌then◌else◌}
use dollar.Base.Int.{ℤ, pos, ◌+ℤ◌, is_positive}
use dollar.Base.Bytes.{Bytes, bytes_lt}
use dollar.Base.Map.{Map}
use dollar.Types.{
  M, Result, ok, err, panic, not_found, bad_address, routers, pure, throw, lift, gets, or_throw,
  skip, when, ◌>>=◌, ◌>>◌,
}
use dollar.Types.Store.{World}
use dollar.Types.Env.{Env, HypToken}
use dollar.Restriction.{send_restriction}
use dollar.State.Dollar.{
  ibc, hyperlane, get_yield_recipients_by_provider, get_retry_amount_and_remove,
  increment_retry_amount, increment_total_external_yield,
}
use dollar.Yield.{claim_module_yield}

-- `sort.Strings` of the identifiers, each with its recipient.
unfoldable pub sort_in : Bytes × Bytes → Map Bytes Bytes → Map Bytes Bytes
sort_in e [] = e ∷ []
sort_in e (f ∷ m) = let rest = sort_in e m in if bytes_lt e.0 f.0 then e ∷ f ∷ m else f ∷ rest

unfoldable pub sort_strings : Map Bytes Bytes → Map Bytes Bytes
unfolding sort_in
sort_strings [] = []
sort_strings (e ∷ m) = sort_in e (sort_strings m)

-- Whether a call returned no error; its writes stay.
abbrev pub succeeded : {W : Type 0} → Result (Unit {0}) × W → Result Bool × W
succeeded (ok _, w) = (ok true, w)
succeeded (err e, w) = (ok false, w)
succeeded (panic, w) = (panic, w)

-- A transfer that fails is put down for a retry.
unfoldable pub transfer_or_retry :
    {Chain : Type 0} → ℤ → Bytes → ℤ → M (World Chain) (Unit {0}) → M (World Chain) (Unit {0})
transfer_or_retry provider identifier accrued_yield transfer = do
  sent ← λ w. succeeded (transfer w)
  when (not_sent sent) (increment_retry_amount provider identifier accrued_yield)
  where
    not_sent : Bool → Bool
    not_sent true = false
    not_sent false = true

module _ {Chain Decimal : Type 0} (env : Env Chain Decimal) where
  -- One round of the loop over the channels.
  unfoldable pub claim_channel : Bytes → Bytes → M (World Chain) (Unit {0})
  unfolding transfer_or_retry
  claim_channel channel_id yield_recipient = do
    let escrow_address = env.escrow_address env.transfer_port channel_id
    yield ← claim_module_yield env escrow_address
    retry_amount ← get_retry_amount_and_remove ibc channel_id
    let accrued_yield = yield +ℤ retry_amount
    when (is_positive accrued_yield) (do
      transfer_or_retry ibc channel_id accrued_yield (
          env.ibc_transfer (send_restriction env) channel_id accrued_yield
            (env.address_string escrow_address) yield_recipient
            ((env.unix_nano + env.relative_timeout) % 2 ^ 64))
      increment_total_external_yield ibc channel_id yield)

  unfoldable pub claim_channels : Map Bytes Bytes → M (World Chain) (Unit {0})
  unfolding claim_channel
  claim_channels [] = skip
  claim_channels ((channel_id, yield_recipient) ∷ m) = do
    claim_channel channel_id yield_recipient
    claim_channels m

  unfoldable pub claim_external_yield_ibc : M (World Chain) (Unit {0})
  unfolding claim_channels
  claim_external_yield_ibc = do
    recipients ← gets (λ w. get_yield_recipients_by_provider ibc w.dollar.yield_recipients)
    claim_channels (sort_strings recipients)

  -- Exactly one router may be enrolled.
  unfoldable pub get_hyperlane_router : ℕ → M (World Chain) ℕ
  get_hyperlane_router token_id = do
    found ← λ w. (env.enrolled_routers w.chain token_id, w)
    only_router found
    where
      only_router : List ℕ → M (World Chain) ℕ
      only_router [] = throw routers
      only_router (r ∷ []) = pure r
      only_router (r ∷ s ∷ rs) = throw routers

  -- The tokens of the identifiers, and the sum of their collateral.
  unfoldable pub find_tokens :
      Map Bytes Bytes → M (World Chain) (List (Bytes × (Bytes × HypToken)) × ℤ)
  find_tokens [] = pure ([], pos 0)
  find_tokens ((identifier, recipient) ∷ m) = do
    raw_identifier ← or_throw (env.decode_hex_address identifier) bad_address
    found ← gets (λ w. env.hyp_token w.chain (env.internal_id raw_identifier))
    token ← or_throw found not_found
    (tokens, total) ← find_tokens m
    pure ((identifier, (recipient, token)) ∷ tokens, token.collateral_balance +ℤ total)

  -- One round of the loop over the routes.
  unfoldable pub claim_route : ℤ → ℤ → Bytes → Bytes → HypToken → M (World Chain) (Unit {0})
  unfolding transfer_or_retry get_hyperlane_router
  claim_route yield total_collateral identifier recipient token = do
    portion ← lift (env.dec_quo_int (env.dec_from_int token.collateral_balance) total_collateral)
    let yield_portion = env.truncate_int (env.dec_mul_int portion yield)
    retry_amount ← get_retry_amount_and_remove hyperlane identifier
    let accrued_yield = yield_portion +ℤ retry_amount
    when (is_positive accrued_yield) (do
      receiver_domain ← get_hyperlane_router token.id
      recipient_bz ← or_throw (env.decode_hex_address recipient) bad_address
      transfer_or_retry hyperlane identifier accrued_yield (
          env.remote_transfer_collateral (send_restriction env) token
            (env.address_string (env.new_module_address env.warp_module_name)) receiver_domain
            recipient_bz accrued_yield)
      increment_total_external_yield hyperlane identifier yield_portion)

  unfoldable pub claim_routes :
      ℤ → ℤ → List (Bytes × (Bytes × HypToken)) → M (World Chain) (Unit {0})
  unfolding claim_route
  claim_routes yield total_collateral [] = skip
  claim_routes yield total_collateral ((identifier, (recipient, token)) ∷ tokens) = do
    claim_route yield total_collateral identifier recipient token
    claim_routes yield total_collateral tokens

  unfoldable pub claim_external_yield_hyperlane : M (World Chain) (Unit {0})
  unfolding find_tokens claim_routes
  claim_external_yield_hyperlane = do
    recipients ← gets (λ w. get_yield_recipients_by_provider hyperlane w.dollar.yield_recipients)
    yield ← claim_module_yield env (env.new_module_address env.warp_module_name)
    when (is_positive yield) (do
      (tokens, total_collateral) ← find_tokens (sort_strings recipients)
      when (is_positive total_collateral) (claim_routes yield total_collateral tokens))
