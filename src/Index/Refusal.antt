-- ===== src/Index/Refusal.antt =====
-- Refusals and panics of `UpdateIndex` (keeper/msg_server.go).
use dollar.Base.{◌≡◌, refl, true, false, some, arith}
use dollar.Base.Int.{int_laws, is_negative, ℤ, ◌-ℤ◌, ◌≤ℤ◌, ◌<ℤ◌, leb_ℤ}
use dollar.Types.{ok, err, panic, decreasing_index, get_item-some}
use dollar.Types.Store.{World, Stats}
use dollar.Types.Env.{Env}
use dollar.Math.{get_present_amount}
use dollar.State.Dollar.{get_total_principal}
use dollar.Index.Update.{accrue_yield, raise_index, update_index}

-- `sdk.NewCoin` panics on a negative amount.
abbrev pub NegativePanics : {Chain Decimal : Type 0} → Env Chain Decimal → Type 0
NegativePanics env = (n : ℤ) → is_negative n ≡ true → env.new_coins n ≡ panic

module _ {Chain Decimal : Type 0} (env : Env Chain Decimal) (old raised : ℤ) (w : World Chain) where
  -- An index update to an index that is not above the stored one is refused with an error of a
  -- decreasing index, and changes nothing.
  pub update_index-refused :
      w.dollar.index ≡ some old
      → raised ≤ℤ old
      → update_index env raised w ≡ (err decreasing_index, w)
  unfolding update_index
  update_index-refused e le =
      let c : leb_ℤ raised old ≡ true = ground arith in
      rw (get_item-some (λ v. v.dollar.index) w old e, c) refl

  accrue_yield-panics :
      (total expected supply : ℤ) (v : World Chain)
      → get_present_amount total raised ≡ ok expected
      → env.get_supply v.chain ≡ supply
      → env.new_coins (expected -ℤ supply) ≡ panic
      → accrue_yield env total raised v ≡ (panic, v)
  unfolding accrue_yield
  accrue_yield-panics total expected supply v present bank coins = rw (present, bank, coins) refl

  raise_index-panics :
      (s : Stats) (expected supply : ℤ)
      → w.dollar.stats ≡ some s
      → get_present_amount s.total_principal raised ≡ ok expected
      → env.get_supply w.chain ≡ supply
      → env.new_coins (expected -ℤ supply) ≡ panic
      → raise_index env old raised w
        ≡ (panic, record w { dollar = record (w.dollar) { index = some raised } })
  unfolding raise_index get_total_principal
  raise_index-panics s expected supply stats present bank coins =
      let v : World Chain = record w { dollar = record (w.dollar) { index = some raised } } in
      rw
        (
          get_item-some (λ u. u.dollar.stats) v s stats,
          accrue_yield-panics s.total_principal expected supply v present bank coins,
        )
        refl

  -- An index update to a larger index than the stored one, with the statistics there, panics,
  -- rather than skip the yield, when the present amount of the total principal at the new index is
  -- below the bank's supply and coins of a negative amount panic; the new index is then already
  -- written.
  pub update_index-panics :
      (s : Stats) (expected supply : ℤ)
      → w.dollar.index ≡ some old
      → old <ℤ raised
      → w.dollar.stats ≡ some s
      → get_present_amount s.total_principal raised ≡ ok expected
      → env.get_supply w.chain ≡ supply
      → expected <ℤ supply
      → NegativePanics env
      → update_index env raised w
        ≡ (panic, record w { dollar = record (w.dollar) { index = some raised } })
  unfolding update_index
  update_index-panics s expected supply e lt stats present bank below negative =
      let c : leb_ℤ raised old ≡ false = ground arith in
      rw (get_item-some (λ v. v.dollar.index) w old e, c)
        (raise_index-panics s expected supply stats present bank
          (negative (expected -ℤ supply) (grind int_laws)))
