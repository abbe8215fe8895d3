-- ===== src/State/Dollar.antt =====
-- keeper/state.go
use dollar.Base.{◌+◌, ◌-◌, ◌%◌, ◌^◌, Bool, false, Option, none, some, [], ◌∷◌, ltb, if◌then◌else◌}
use dollar.Base.Int.{ℤ, pos, ◌+ℤ◌, ◌-ℤ◌, is_positive, eqb_ℤ, fits256}
use dollar.Base.Bytes.{Bytes}
use dollar.Base.Key.{pair_key, int_key, bytes_key}
use dollar.Base.Map.{Map, lookup, has, insert, remove}
use dollar.Types.{M, Result, ok, err, overflow, pure, get_item, gets, when, ◌>>=◌, ◌>>◌}
use dollar.Types.Store.{World, Stats, YieldKey}
use dollar.State.Names.{set_dollar}

abbrev pub ibc : ℤ
ibc = pos 0

abbrev pub hyperlane : ℤ
hyperlane = pos 1

-- What is not there reads as Go's zero value.
abbrev pub or_false : Option Bool → Bool
or_false none = false
or_false (some b) = b

abbrev pub or_zero : Option ℤ → ℤ
or_zero none = pos 0
or_zero (some n) = n

-- `SafeAdd` and `SafeSub` of `math.Int` return an error outside 256 bits.
unfoldable pub safe_add : ℤ → ℤ → Result ℤ
safe_add a b = if fits256 (a +ℤ b) then ok (a +ℤ b) else err overflow

unfoldable pub safe_sub : ℤ → ℤ → Result ℤ
safe_sub a b = if fits256 (a -ℤ b) then ok (a -ℤ b) else err overflow

-- The yield recipients under one provider, by identifier, in the order of the keys.
unfoldable pub get_yield_recipients_by_provider : ℤ → Map YieldKey Bytes → Map Bytes Bytes
get_yield_recipients_by_provider provider [] = []
get_yield_recipients_by_provider provider (((p, identifier), recipient) ∷ m) =
    let rest = get_yield_recipients_by_provider provider m in
    if eqb_ℤ p provider then (identifier, recipient) ∷ rest else rest

module _ {Chain : Type 0} where
  unfoldable pub get_paused : World Chain → Bool
  get_paused w = or_false w.dollar.paused

  abbrev pub set_stats : Stats → M (World Chain) (Unit {0})
  set_stats s = set_dollar (λ d. record d { stats = some s })

  abbrev pub get_stats : M (World Chain) Stats
  get_stats = get_item (λ w. w.dollar.stats)

  unfoldable pub decrement_total_holders : M (World Chain) (Unit {0})
  decrement_total_holders = do
    stats ← get_stats
    set_stats (record stats {
      total_holders =
          if ltb 0 stats.total_holders then stats.total_holders - 1 else stats.total_holders;
    })

  unfoldable pub increment_total_holders : M (World Chain) (Unit {0})
  increment_total_holders = do
    stats ← get_stats
    set_stats (record stats { total_holders = (stats.total_holders + 1) % 2 ^ 64 })

  unfoldable pub get_total_principal : M (World Chain) ℤ
  get_total_principal = do stats ← get_stats; pure stats.total_principal

  unfoldable pub decrement_total_principal : ℤ → M (World Chain) (Unit {0})
  unfolding safe_sub
  decrement_total_principal amount = do
    stats ← get_stats
    total ← λ w. (safe_sub stats.total_principal amount, w)
    set_stats (record stats { total_principal = total })

  unfoldable pub increment_total_principal : ℤ → M (World Chain) (Unit {0})
  unfolding safe_add
  increment_total_principal amount = do
    stats ← get_stats
    total ← λ w. (safe_add stats.total_principal amount, w)
    set_stats (record stats { total_principal = total })

  unfoldable pub increment_total_yield_accrued : ℤ → M (World Chain) (Unit {0})
  unfolding safe_add
  increment_total_yield_accrued amount = do
    stats ← get_stats
    total ← λ w. (safe_add stats.total_yield_accrued amount, w)
    set_stats (record stats { total_yield_accrued = total })

  unfoldable pub increment_total_external_yield : ℤ → Bytes → ℤ → M (World Chain) (Unit {0})
  increment_total_external_yield provider identifier amount = set_dollar (λ d.
      let key : YieldKey = (provider, identifier) in
      record d {
        total_external_yield =
            insert key (or_zero (lookup key d.total_external_yield) +ℤ amount)
              d.total_external_yield;
      })

  unfoldable pub has_yield_recipient : ℤ → Bytes → World Chain → Bool
  has_yield_recipient provider identifier w =
      let key : YieldKey = (provider, identifier) in has key w.dollar.yield_recipients

  unfoldable pub get_retry_amount : ℤ → Bytes → World Chain → ℤ
  get_retry_amount provider identifier w =
      let key : YieldKey = (provider, identifier) in or_zero (lookup key w.dollar.retry_amounts)

  unfoldable pub get_retry_amount_and_remove : ℤ → Bytes → M (World Chain) ℤ
  get_retry_amount_and_remove provider identifier = do
    retry_amount ← gets (get_retry_amount provider identifier)
    when (is_positive retry_amount) (
        set_dollar (λ d.
          let key : YieldKey = (provider, identifier) in
          record d { retry_amounts = remove key d.retry_amounts }))
    pure retry_amount

  unfoldable pub increment_retry_amount : ℤ → Bytes → ℤ → M (World Chain) (Unit {0})
  increment_retry_amount provider identifier amount = do
    retry_amount ← gets (get_retry_amount provider identifier)
    set_dollar (λ d.
        let key : YieldKey = (provider, identifier) in
        record d { retry_amounts = insert key (retry_amount +ℤ amount) d.retry_amounts })
