-- ===== src/Index/Solvency.antt =====
-- Runs of `Mint` and `Burn` (keeper/msg_server.go) at one index, and what the total principal is
-- worth against the bank's supply.
use dollar.Base.{ℕ, suc, ◌+◌, ◌-◌, ◌*◌, ◌/◌, ◌≤◌, ◌<◌, ◌≡◌, true, none, arith}
use dollar.Base.Int.{ℤ, pos, ◌+ℤ◌, ◌-ℤ◌, ◌≤ℤ◌, fits256}
use dollar.Base.Bytes.{Bytes}
use dollar.Types.{ok}
use dollar.Types.Store.{World}
use dollar.Types.Env.{Env}
use dollar.Math.Rounding.{up}
use dollar.State.Names.{module_address}
use dollar.Restriction.{balance_of}
use dollar.Restriction.Totals.{Totals}
use dollar.Bank.Laws.{IsBank, IsUser}
use dollar.Yield.{burn}
use dollar.Yield.Burning.{burn_lem}
use dollar.Index.Update.{mint}
use dollar.Index.Minting.{mint_lem}

-- What a state is worth: the total principal, the sum of the principals and the supply.
pub record Worth {Chain Decimal : Type 0} (env : Env Chain Decimal) (i : ℕ) (w : World Chain)
    (h : ℤ) (t s : ℕ) : Type 0 where
  pub totals : Totals w h (pos t) (pos i)
  pub supply : env.get_supply w.chain ≡ pos s

module _ {Chain Decimal : Type 0} (env : Env Chain Decimal) (i : ℕ) where
  -- A run of mints and burns of positive amounts, from and to users. The number counts the burns.
  pub data Flow : World Chain → ℕ → World Chain → Type 0 where
    done : {w : World Chain} → Flow w 0 w
    minted :
        {w w₁ w' : World Chain} {h : ℤ} {t s a n : ℕ} {recipient : Bytes}
        → Worth env i w h t s
        → 0 < a
        → IsUser env recipient
        → pos 0 ≤ℤ balance_of env (module_address env) w
        → fits256 (pos t +ℤ pos (up a i)) ≡ true
        → mint env recipient (pos a) none w ≡ (ok tt, w₁)
        → Flow w₁ n w'
        → Flow w n w'
    burned :
        {w w₁ w' : World Chain} {h : ℤ} {t s a n : ℕ} {sender : Bytes}
        → Worth env i w h t s
        → 0 < a
        → IsUser env sender
        → pos a ≤ℤ balance_of env sender w
        → pos 0 ≤ℤ balance_of env (module_address env) w
        → up a i ≤ t
        → a ≤ s
        → fits256 (pos t -ℤ pos (up a i)) ≡ true
        → burn env sender (pos a) w ≡ (ok tt, w₁)
        → Flow w₁ n w'
        → Flow w (suc n) w'

  -- A state has one total and one supply.
  same_amounts :
      (w : World Chain) (h h' : ℤ) (t t' s s' : ℕ)
      → Worth env i w h t s
      → Worth env i w h' t' s'
      → (t ≡ t') × (s ≡ s')
  same_amounts w h h' t t' s s' x y =
      let a = x.totals.has_stats in
      let b = y.totals.has_stats in
      let c = x.totals.of_total in
      let d = y.totals.of_total in let e = x.supply in let f = y.supply in (cc, cc)

  module _ (bank : IsBank env) (positive : 0 < i) where
    minted-Worth :
        (w w₁ : World Chain) (h : ℤ) (t s a : ℕ) (recipient : Bytes)
        → Worth env i w h t s
        → 0 < a
        → IsUser env recipient
        → pos 0 ≤ℤ balance_of env (module_address env) w
        → fits256 (pos t +ℤ pos (up a i)) ≡ true
        → mint env recipient (pos a) none w ≡ (ok tt, w₁)
        → (h₁ : ℤ) × (t₁ s₁ : ℕ) × Worth env i w₁ h₁ t₁ s₁
          × (s₁ + t * i / 1_000_000_000_000 ≤ s + t₁ * i / 1_000_000_000_000)
    minted-Worth w w₁ h t s a recipient x some_amount user balance fits e =
        let (w₂, p, u, e₂, _, _, totals, _, supply, rise) =
          mint_lem env bank recipient a i s t w h positive some_amount user balance fits x.totals
            x.supply in
        let left : Worth env i w₂ (h +ℤ pos p) (t + u) (s + a) = record {
          totals = totals;
          supply = supply;
        } in
        let same : w₂ ≡ w₁ = cc in (h +ℤ pos p, t + u, s + a, rw same at left, omega (arith, rise))

    burned-Worth :
        (w w₁ : World Chain) (h : ℤ) (t s a : ℕ) (sender : Bytes)
        → Worth env i w h t s
        → 0 < a
        → IsUser env sender
        → pos a ≤ℤ balance_of env sender w
        → pos 0 ≤ℤ balance_of env (module_address env) w
        → up a i ≤ t
        → a ≤ s
        → fits256 (pos t -ℤ pos (up a i)) ≡ true
        → burn env sender (pos a) w ≡ (ok tt, w₁)
        → (h₁ : ℤ) × (t₁ s₁ : ℕ) × Worth env i w₁ h₁ t₁ s₁
          × (s₁ + t * i / 1_000_000_000_000
              ≤ s + t₁ * i / 1_000_000_000_000 + (i / 1_000_000_000_000 + 1))
    burned-Worth w w₁ h t s a sender x some_amount user owns balance le below fits e =
        let (w₂, u, e₂, _, totals, supply, fall) =
          burn_lem env bank sender a i s t w h positive some_amount user owns balance le fits
            x.totals x.supply below in
        let left : Worth env i w₂ (h -ℤ pos u) (t - u) (s - a) = record {
          totals = totals;
          supply = supply;
        } in
        let same : w₂ ≡ w₁ = cc in
        (h -ℤ pos u, t - u, s - a, rw same at left, omega (arith, fall, below))

    -- With a bank that moves, mints and burns coins by the amount: in a run of mints and burns of
    -- positive amounts for users at one positive index, with the statistics there, what the supply
    -- gains over what the total principal is worth is at most one unit of the index and one more
    -- for each burn. The sums of the run stay within 256 bits, and what is burned is there.
    pub Flow-Worth :
        {w w' : World Chain} {n : ℕ} (h : ℤ) (t s : ℕ)
        → Flow w n w'
        → Worth env i w h t s
        → (h' : ℤ) × (t' s' : ℕ) × Worth env i w' h' t' s'
          × (s' + t * i / 1_000_000_000_000
              ≤ s + t' * i / 1_000_000_000_000 + n * (i / 1_000_000_000_000 + 1))
    Flow-Worth h t s done x = (h, t, s, x, omega arith)
    Flow-Worth {w} {w'} h t s
          (minted {w₁} {h = h₀} {t = t₀} {s = s₀} {a} {n} {recipient} x₀ some_amount user balance
            fits e f)
          x =
        let (h₁, t₁, s₁, x₁, rise) =
          minted-Worth w w₁ h₀ t₀ s₀ a recipient x₀ some_amount user balance fits e in
        let (h₂, t₂, s₂, x₂, short) = Flow-Worth h₁ t₁ s₁ f x₁ in
        let (same_t, same_s) = same_amounts w h h₀ t t₀ s s₀ x x₀ in
        (h₂, t₂, s₂, x₂, rw (same_t, same_s) (omega (arith, rise, short)))
    Flow-Worth {w} {w'} h t s
          (burned {w₁} {h = h₀} {t = t₀} {s = s₀} {a} {n} {sender} x₀ some_amount user owns balance
            le below fits e f)
          x =
        let (h₁, t₁, s₁, x₁, fall) =
          burned-Worth w w₁ h₀ t₀ s₀ a sender x₀ some_amount user owns balance le below fits e in
        let (h₂, t₂, s₂, x₂, short) = Flow-Worth h₁ t₁ s₁ f x₁ in
        let (same_t, same_s) = same_amounts w h h₀ t t₀ s s₀ x x₀ in
        (h₂, t₂, s₂, x₂, rw (same_t, same_s) (grind (arith, fall, short)))
