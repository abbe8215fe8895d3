-- ===== src/Yield/Claiming.antt =====
-- What `ClaimYield` (keeper/msg_server.go) brings to an account.
use dollar.Base.{
  ℕ, ◌+◌, ◌-◌, ◌*◌, ◌/◌, ◌≤◌, ◌≡◌, refl, false, true, some, arith, ◌||◌, [], ◌∷◌, ◌++◌,
}
use dollar.Base.Int.{ℤ, pos, ◌+ℤ◌, ◌-ℤ◌, ◌≤ℤ◌, int_laws, fits256, eqb_ℤ, is_negative}
use dollar.Base.Bytes.{Bytes, bytes_eq, bytes_eq_refl}
use dollar.Types.{ok, get_item-some}
use dollar.Types.Store.{World, yield_claimed}
use dollar.Types.Env.{Env}
use dollar.Math.Rounding.{present_formula}
use dollar.State.Names.{yield_name, yield_address}
use dollar.State.Dollar.{get_paused}
use dollar.Restriction.{principal_of, balance_of, send_restriction}
use dollar.Bank.{send_coins, send_coins_from_module_to_account}
use dollar.Bank.Laws.{IsBank}
use dollar.Yield.{valid_yield, get_yield, claim_yield}

-- An account that the yield account can send to.
pub record CanClaim {Chain Decimal : Type 0} (env : Env Chain Decimal) (account : Bytes)
    : Type 0 where
  pub differ : bytes_eq (yield_address env) account ≡ false
  pub allowed : (c : Chain) → env.check_module_send yield_name account c ≡ (ok tt, c)

valid_yield-difference :
    (x b : ℕ)
    → b + 2 ≤ x
    → fits256 (pos (x - b)) ≡ true
    → valid_yield (pos x -ℤ pos b) ≡ pos (x - b)
unfolding valid_yield
valid_yield-difference x b le fits =
    let same : pos x -ℤ pos b ≡ pos (x - b) = grind (int_laws, le) in
    let enough : eqb_ℤ (pos (x - b)) (pos 1) || is_negative (pos (x - b)) ≡ false =
      ground (arith, le) in
    rw (same, fits, enough) refl

valid_yield-none : (x : ℕ) → valid_yield (pos x -ℤ pos x) ≡ pos 0
unfolding valid_yield
valid_yield-none x = let same : pos x -ℤ pos x ≡ pos 0 = grind int_laws in rw same (ground arith)

module _ {Chain Decimal : Type 0} (env : Env Chain Decimal) where
  get_yield_formula :
      (account bz : Bytes) (p i b : ℕ) (w : World Chain)
      → env.string_to_bytes account ≡ some bz
      → w.dollar.index ≡ some (pos i)
      → principal_of bz w ≡ pos p
      → balance_of env bz w ≡ pos b
      → get_yield env account w
        ≡ (ok (valid_yield (pos (p * i / 1_000_000_000_000) -ℤ pos b), bz), w)
  unfolding get_yield
  get_yield_formula account bz p i b w valid index principal balance =
      rw
        (
          valid,
          get_item-some (λ v. v.dollar.index) w (pos i) index,
          principal,
          balance,
          present_formula p i,
        )
        refl

  yield-passes :
      (recipient : Bytes) (n : ℤ) (w : World Chain)
      → send_restriction env (yield_address env) recipient n w ≡ (ok recipient, w)
  unfolding send_restriction
  yield-passes recipient n w = ground (arith, bytes_eq_refl (yield_address env))

  pay_yield :
      (bank : IsBank env) (bz : Bytes) (n : ℕ) (w : World Chain)
      → CanClaim env bz
      → pos n ≤ℤ balance_of env (yield_address env) w
      → (c : Chain) × (send_coins_from_module_to_account env yield_name bz (pos n) w
          ≡ (ok tt, record w { chain = c }))
        × (env.get_supply c ≡ env.get_supply w.chain)
        × (env.get_balance c bz ≡ env.get_balance w.chain bz +ℤ pos n)
  unfolding send_coins_from_module_to_account send_coins
  pay_yield bank bz n w claims enough =
      let (c, sent, supply, balance) =
        bank.sends (yield_address env) bz n w.chain claims.differ enough in
      (
        c,
        rw
            (
              claims.allowed w.chain,
              bank.restricts (yield_address env) bz n w.chain,
              yield-passes bz (pos n) w,
              sent,
            )
            refl,
        supply,
        balance,
      )

module _ {Chain Decimal : Type 0} (env : Env Chain Decimal) (bank : IsBank env) (signer bz : Bytes)
    (p i b : ℕ) (w : World Chain) where
  -- With a bank that moves coins by the amount, and while the module is not paused: a claim
  -- succeeds for a valid signer to whom the yield account can send, and whose balance is below the
  -- present amount of the principal by 2 at least, where the difference fits 256 bits and the yield
  -- account has it. The balance is then the present amount of the principal, so that no yield is
  -- left, while the supply and the module's own state, the principal among it, are as before.
  pub claim_yield_lem :
      get_paused w ≡ false
      → env.string_to_bytes signer ≡ some bz
      → w.dollar.index ≡ some (pos i)
      → principal_of bz w ≡ pos p
      → balance_of env bz w ≡ pos b
      → b + 2 ≤ p * i / 1_000_000_000_000
      → fits256 (pos (p * i / 1_000_000_000_000 - b)) ≡ true
      → CanClaim env bz
      → pos (p * i / 1_000_000_000_000 - b) ≤ℤ balance_of env (yield_address env) w
      → (w' : World Chain) × (claim_yield env signer w ≡ (ok tt, w'))
        × (balance_of env bz w' ≡ pos (p * i / 1_000_000_000_000))
        × (get_yield env signer w' ≡ (ok (pos 0, bz), w'))
        × (env.get_supply w'.chain ≡ env.get_supply w.chain)
        × (w'.dollar ≡ w.dollar)
  unfolding claim_yield principal_of
  claim_yield_lem running valid index principal balance le fits claims funded =
      let x = p * i / 1_000_000_000_000 in
      let (c, paid, supply, more) = pay_yield env bank bz (x - b) w claims funded in
      let full : env.get_balance c bz ≡ pos x = grind (int_laws, more, balance, le) in
      let w' : World Chain = record w {
        chain = c;
        events = w.events ++ (yield_claimed signer (pos (x - b)) ∷ []);
      } in
      (
        w',
        rw
            (
              running,
              get_yield_formula env signer bz p i b w valid index principal balance,
              valid_yield-difference x b le fits,
              bank.coins (x - b),
              paid,
            )
            refl,
        full,
        rw (valid_yield-none x) at
            (get_yield_formula env signer bz p i x w' valid index principal full),
        supply,
        refl,
      )
