-- ===== src/Index/Distributing.antt =====
-- The index under the distribution of the yield to other chains (keeper/msg_server.go).
use dollar.Base.{ℕ, ◌+◌, ◌%◌, ◌^◌, Bool, true, false, not, List, [], ◌∷◌, arith}
use dollar.Base.Int.{ℤ, ◌+ℤ◌, is_positive}
use dollar.Base.Bytes.{Bytes}
use dollar.Base.Map.{Map}
use dollar.Types.{
  M, Result, ok, err, panic, bad_address, not_found, lift, gets, or_throw, when, or_throw-Preserves,
}
use dollar.Types.Store.{World}
use dollar.Types.Env.{Env, HypToken, Restriction}
use dollar.State.Dollar.{
  ibc, hyperlane, get_retry_amount_and_remove, increment_retry_amount,
  increment_total_external_yield, get_yield_recipients_by_provider,
}
use dollar.Restriction.{send_restriction}
use dollar.Yield.{claim_module_yield}
use dollar.Index.External.{
  succeeded, transfer_or_retry, claim_channel, claim_channels, claim_external_yield_ibc,
  sort_strings, get_hyperlane_router, find_tokens, claim_route, claim_routes,
  claim_external_yield_hyperlane,
}
use dollar.Index.Keeping.{At, Keeps, At-IsStable}
use dollar.Types.Rules.{bind-Preserves, reads-Preserves, when-Preserves}
use dollar.Bank.Keeping.{send_restriction-Preserves}
use dollar.Yield.Keeping.{claim_module_yield-Preserves}

-- The transfers of the other modules touch the index only through the restriction that they run.
pub record TransfersKeep {Chain Decimal : Type 0} (env : Env Chain Decimal) (i : ℤ) : Type 0 where
  pub ibc_keeps :
      (hook : Restriction Chain)
      → ((a b : Bytes) (n : ℤ) → Keeps i (hook a b n))
      → (channel : Bytes) (n : ℤ) (sender receiver : Bytes) (timeout : ℕ)
      → Keeps i (env.ibc_transfer hook channel n sender receiver timeout)
  pub hyperlane_keeps :
      (hook : Restriction Chain)
      → ((a b : Bytes) (n : ℤ) → Keeps i (hook a b n))
      → (token : HypToken) (sender : Bytes) (domain : ℕ) (recipient : Bytes) (n : ℤ)
      → Keeps i (env.remote_transfer_collateral hook token sender domain recipient n)

module _ {Chain : Type 0} (i : ℤ) where
  succeeded-Keeps : (m : M (World Chain) (Unit {0})) → Keeps i m → Keeps i (λ w. succeeded (m w))
  succeeded-Keeps m h = record { keeps = λ w e. go (m w) (h.keeps w e) }
    where
      go : (r : Result (Unit {0}) × World Chain) → At i r.1 → At i (succeeded r).1
      go (ok a, w) e = e
      go (err x, w) e = e
      go (panic, w) e = e

  retried-Keeps :
      (provider : ℤ) (identifier : Bytes) (n : ℤ)
      → Keeps i (increment_retry_amount {Chain = Chain} provider identifier n)
  unfolding increment_retry_amount
  retried-Keeps provider identifier n = record { keeps = λ w e. ground arith }

  transfer_or_retry-Keeps :
      (provider : ℤ) (identifier : Bytes) (n : ℤ) (m : M (World Chain) (Unit {0}))
      → Keeps i m
      → Keeps i (transfer_or_retry provider identifier n m)
  unfolding transfer_or_retry
  transfer_or_retry-Keeps provider identifier n m h =
      bind-Preserves (At i) {B = Unit {0}} (λ w. succeeded (m w)) (succeeded-Keeps m h) go
    where
      go :
          (sent : Bool)
          → Keeps i (when (not sent) (increment_retry_amount {Chain = Chain} provider identifier n))
      go true = record { keeps = λ w e. e }
      go false = retried-Keeps provider identifier n

  taken-Keeps :
      (provider : ℤ) (identifier : Bytes)
      → Keeps i (get_retry_amount_and_remove {Chain = Chain} provider identifier)
  unfolding get_retry_amount_and_remove
  taken-Keeps provider identifier = record { keeps = λ w e. ground arith }

  external_yield-Keeps :
      (provider : ℤ) (identifier : Bytes) (n : ℤ)
      → Keeps i (increment_total_external_yield {Chain = Chain} provider identifier n)
  unfolding increment_total_external_yield
  external_yield-Keeps provider identifier n = record { keeps = λ w e. e }

module _ {Chain Decimal : Type 0} (env : Env Chain Decimal) (i : ℤ)
    (keep : TransfersKeep env i) where
  claim_channel-Keeps : (channel recipient : Bytes) → Keeps i (claim_channel env channel recipient)
  unfolding claim_channel
  claim_channel-Keeps channel recipient =
      let escrow = env.escrow_address env.transfer_port channel in
      bind-Preserves (At i) {B = Unit {0}} (claim_module_yield env escrow)
        (claim_module_yield-Preserves env (At i) (At-IsStable i) _)
        (λ yield.
          bind-Preserves (At i) {B = Unit {0}} (get_retry_amount_and_remove ibc channel)
            (taken-Keeps i _ _)
            (λ retry.
              let n = yield +ℤ retry in
              let transfer =
                env.ibc_transfer (send_restriction env) channel n (env.address_string escrow)
                  recipient ((env.unix_nano + env.relative_timeout) % 2 ^ 64) in
              when-Preserves (At i) (is_positive n) (
                bind-Preserves (At i) {B = Unit {0}} (transfer_or_retry ibc channel n transfer)
                  (transfer_or_retry-Keeps i ibc channel n transfer (
                    keep.ibc_keeps (send_restriction env)
                      (send_restriction-Preserves env (At i) (At-IsStable i).untouched) _ _ _ _ _))
                  (λ _. external_yield-Keeps i ibc channel yield))))

  claim_channels-Keeps : (m : Map Bytes Bytes) → Keeps i (claim_channels env m)
  unfolding claim_channels
  claim_channels-Keeps [] = record { keeps = λ w e. e }
  claim_channels-Keeps ((channel, recipient) ∷ m) =
      bind-Preserves (At i) {B = Unit {0}} (claim_channel env channel recipient)
        (claim_channel-Keeps channel recipient) (λ _. claim_channels-Keeps m)

  pub claim_external_yield_ibc-Keeps : Keeps i (claim_external_yield_ibc env)
  unfolding claim_external_yield_ibc
  claim_external_yield_ibc-Keeps =
      bind-Preserves (At i) {B = Unit {0}}
        (gets (λ w. get_yield_recipients_by_provider ibc w.dollar.yield_recipients))
        (reads-Preserves (At i) _) (λ m. claim_channels-Keeps (sort_strings m))

  get_hyperlane_router-Keeps : (id : ℕ) → Keeps i (get_hyperlane_router env id)
  unfolding get_hyperlane_router
  get_hyperlane_router-Keeps id = record { keeps = λ w e. ground arith }

  find_tokens-Keeps : (m : Map Bytes Bytes) → Keeps i (find_tokens env m)
  unfolding find_tokens
  find_tokens-Keeps [] = record { keeps = λ w e. e }
  find_tokens-Keeps ((identifier, recipient) ∷ m) =
      bind-Preserves (At i) {B = List (Bytes × (Bytes × HypToken)) × ℤ}
        (or_throw (env.decode_hex_address identifier) bad_address) (or_throw-Preserves (At i) _ _)
        (λ raw.
          bind-Preserves (At i) {B = List (Bytes × (Bytes × HypToken)) × ℤ}
            (gets (λ w. env.hyp_token w.chain (env.internal_id raw))) (reads-Preserves (At i) _)
            (λ found.
              bind-Preserves (At i) {B = List (Bytes × (Bytes × HypToken)) × ℤ}
                (or_throw found not_found) (or_throw-Preserves (At i) _ _)
                (λ token.
                  bind-Preserves (At i) {B = List (Bytes × (Bytes × HypToken)) × ℤ}
                    (find_tokens env m) (find_tokens-Keeps m)
                    (λ rest. reads-Preserves (At i) (λ _. ok (
                      (identifier, (recipient, token)) ∷ rest.0,
                      token.collateral_balance +ℤ rest.1,
                    ))))))

  claim_route-Keeps :
      (yield total : ℤ) (identifier recipient : Bytes) (token : HypToken)
      → Keeps i (claim_route env yield total identifier recipient token)
  unfolding claim_route
  claim_route-Keeps yield total identifier recipient token =
      bind-Preserves (At i) {B = Unit {0}}
        (lift (env.dec_quo_int (env.dec_from_int token.collateral_balance) total))
        (reads-Preserves (At i) _)
        (λ portion.
          let part = env.truncate_int (env.dec_mul_int portion yield) in
          bind-Preserves (At i) {B = Unit {0}} (get_retry_amount_and_remove hyperlane identifier)
            (taken-Keeps i _ _)
            (λ retry.
              let n = part +ℤ retry in
              when-Preserves (At i) (is_positive n) (
                bind-Preserves (At i) {B = Unit {0}} (get_hyperlane_router env token.id)
                  (get_hyperlane_router-Keeps token.id)
                  (λ domain.
                    bind-Preserves (At i) {B = Unit {0}}
                      (or_throw (env.decode_hex_address recipient) bad_address)
                      (or_throw-Preserves (At i) _ _)
                      (λ bz.
                        let transfer =
                          env.remote_transfer_collateral (send_restriction env) token
                            (env.address_string (env.new_module_address env.warp_module_name))
                            domain bz n in
                        bind-Preserves (At i) {B = Unit {0}}
                          (transfer_or_retry hyperlane identifier n transfer)
                          (transfer_or_retry-Keeps i hyperlane identifier n transfer (
                            keep.hyperlane_keeps (send_restriction env)
                              (send_restriction-Preserves env (At i) (At-IsStable i).untouched) _ _
                              _ _ _))
                          (λ _. external_yield-Keeps i hyperlane identifier part))))))

  claim_routes-Keeps :
      (yield total : ℤ) (tokens : List (Bytes × (Bytes × HypToken)))
      → Keeps i (claim_routes env yield total tokens)
  unfolding claim_routes
  claim_routes-Keeps yield total [] = record { keeps = λ w e. e }
  claim_routes-Keeps yield total ((identifier, (recipient, token)) ∷ tokens) =
      bind-Preserves (At i) {B = Unit {0}} (claim_route env yield total identifier recipient token)
        (claim_route-Keeps yield total identifier recipient token)
        (λ _. claim_routes-Keeps yield total tokens)

  pub claim_external_yield_hyperlane-Keeps : Keeps i (claim_external_yield_hyperlane env)
  unfolding claim_external_yield_hyperlane
  claim_external_yield_hyperlane-Keeps =
      bind-Preserves (At i) {B = Unit {0}}
        (gets (λ w. get_yield_recipients_by_provider hyperlane w.dollar.yield_recipients))
        (reads-Preserves (At i) _)
        (λ m.
          bind-Preserves (At i) {B = Unit {0}}
            (claim_module_yield env (env.new_module_address env.warp_module_name))
            (claim_module_yield-Preserves env (At i) (At-IsStable i) _)
            (λ yield. when-Preserves (At i) (is_positive yield) (
              bind-Preserves (At i) {B = Unit {0}} (find_tokens env (sort_strings m))
                (find_tokens-Keeps (sort_strings m))
                (λ found.
                  when-Preserves (At i) (is_positive found.1)
                    (claim_routes-Keeps yield found.1 found.0)))))
