-- ===== src/Index/Retrying.antt =====
-- What a round of `claimExternalYieldIBC` (keeper/msg_server_v2.go) leaves to retry.
use dollar.Base.{
  ℕ, ◌+◌, ◌%◌, ◌^◌, ◌≡◌, refl, ◌∙◌, ap, sym, Bool, true, false, some, arith, Bool-cases, inl, inr,
  if◌then◌else◌,
}
use dollar.Base.Int.{ℤ, pos, ◌+ℤ◌, int_laws, is_positive}
use dollar.Base.Bytes.{Bytes}
use dollar.Base.Key.{int_key, bytes_key, pair_key}
use dollar.Base.Map.{lookup, remove}
use dollar.Base.Map.Entries.{Distinct}
use dollar.Base.Map.Unique.{lookup-remove_self, insert-Distinct, remove-Distinct}
use dollar.Base.Map.Laws.{lookup-insert_self}
use dollar.Types.{M, ok}
use dollar.Types.Store.{World, YieldKey}
use dollar.Types.Env.{Env}
use dollar.Restriction.{send_restriction}
use dollar.State.Dollar.{
  ibc, or_zero, get_retry_amount, get_retry_amount_and_remove, increment_retry_amount,
  increment_total_external_yield,
}
use dollar.Yield.{claim_module_yield}
use dollar.Yield.Claim.{claim_module_yield-dollar}
use dollar.Index.External.{claim_channel, transfer_or_retry, succeeded}

pub same_retry :
    {Chain : Type 0} (channel : Bytes) (w w₁ : World Chain)
    → w₁.dollar.retry_amounts ≡ w.dollar.retry_amounts
    → get_retry_amount ibc channel w₁ ≡ get_retry_amount ibc channel w
unfolding get_retry_amount
same_retry channel w w₁ e = rw e refl

module _ {Chain : Type 0} (channel : Bytes) where
  abbrev pub to_retry : World Chain → ℤ
  to_retry w = get_retry_amount ibc channel w

  -- The state without the amount to retry, where it is positive.
  abbrev pub emptied : ℤ → World Chain → World Chain
  emptied r w = record w {
    dollar = record (w.dollar) {
      retry_amounts =
          if is_positive r
          then remove {K = YieldKey} (ibc, channel) w.dollar.retry_amounts
          else w.dollar.retry_amounts;
    };
  }

  taken :
      (r : ℤ) (w : World Chain)
      → to_retry w ≡ r
      → get_retry_amount_and_remove ibc channel w ≡ (ok r, emptied r w)
  unfolding get_retry_amount_and_remove
  taken r w e = elim (Bool-cases (is_positive r)) [
    | inl c ↦ rw (e, c) refl
    | inr c ↦ rw (e, c) refl
  ]

  pub nothing_left :
      (n : ℕ) (w : World Chain)
      → Distinct w.dollar.retry_amounts
      → to_retry w ≡ pos n
      → to_retry (emptied (pos n) w) ≡ pos 0
  unfolding get_retry_amount
  nothing_left n w d e = elim (Bool-cases (is_positive (pos n))) [
    | inl c ↦ rw (c, lookup-remove_self {K = YieldKey} (ibc, channel) w.dollar.retry_amounts d) refl
    | inr c ↦ rw c (e ∙ ap pos (ground arith))
  ]

  pub emptied-Distinct :
      (r : ℤ) (w : World Chain)
      → Distinct w.dollar.retry_amounts
      → Distinct (emptied r w).dollar.retry_amounts
  emptied-Distinct r w d = elim (Bool-cases (is_positive r)) [
    | inl c ↦ rw c (remove-Distinct (ibc, channel) w.dollar.retry_amounts d)
    | inr c ↦ rw c d
  ]

  pub put_down :
      (transfer : M (World Chain) (Unit {0})) (amount : ℤ) (sent : Bool) (w w₁ : World Chain)
      → succeeded (transfer w) ≡ (ok sent, w₁)
      → to_retry w₁ ≡ pos 0
      → (w₂ : World Chain) × (transfer_or_retry ibc channel amount transfer w ≡ (ok tt, w₂))
        × (to_retry w₂ ≡ (if sent then pos 0 else amount))
        × (w₂.dollar.total_external_yield ≡ w₁.dollar.total_external_yield)
        × (Distinct w₁.dollar.retry_amounts → Distinct w₂.dollar.retry_amounts)
  unfolding transfer_or_retry increment_retry_amount get_retry_amount
  put_down transfer amount true w w₁ e z = (w₁, rw (e, transfer_or_retry) refl, z, refl, λ d. d)
  put_down transfer amount false w w₁ e z = (
    (increment_retry_amount ibc channel amount w₁).1,
    rw (e, transfer_or_retry) refl,
    rw lookup-insert_self (rw z (omega int_laws)),
    refl,
    insert-Distinct (ibc, channel) _ w₁.dollar.retry_amounts,
  )

module _ {Chain Decimal : Type 0} (env : Env Chain Decimal) (channel recipient : Bytes) where
  -- The transfer of a round.
  abbrev pub transfer_of : ℤ → M (World Chain) (Unit {0})
  transfer_of amount =
      env.ibc_transfer (send_restriction env) channel amount
        (env.address_string (env.escrow_address env.transfer_port channel)) recipient
        ((env.unix_nano + env.relative_timeout) % 2 ^ 64)

  -- The claim of a round leaves the amounts to retry.
  pub claimed_same :
      (y n : ℤ) (w w₁ : World Chain)
      → claim_module_yield env (env.escrow_address env.transfer_port channel) w ≡ (ok y, w₁)
      → Distinct w.dollar.retry_amounts
      → get_retry_amount ibc channel w ≡ n
      → Distinct w₁.dollar.retry_amounts × (get_retry_amount ibc channel w₁ ≡ n)
  claimed_same y n w w₁ claimed d e =
      let same : w₁.dollar ≡ w.dollar =
        ap (λ p. p.1.dollar) (sym claimed)
        ∙ claim_module_yield-dollar env (env.escrow_address env.transfer_port channel) w in
      (rw same d, same_retry channel w w₁ (ap (λ v. v.retry_amounts) same) ∙ e)

  pub claim_channel_ran :
      (y : ℤ) (n : ℕ) (w w₁ w₃ : World Chain)
      → claim_module_yield env (env.escrow_address env.transfer_port channel) w ≡ (ok y, w₁)
      → get_retry_amount ibc channel w₁ ≡ pos n
      → is_positive (y +ℤ pos n) ≡ true
      → transfer_or_retry ibc channel
          (y +ℤ pos n)
          (transfer_of (y +ℤ pos n))
          (emptied channel (pos n) w₁)
        ≡ (ok tt, w₃)
      → claim_channel env channel recipient w
        ≡ (ok tt, (increment_total_external_yield ibc channel y w₃).1)
  unfolding claim_channel increment_total_external_yield
  claim_channel_ran y n w w₁ w₃ claimed retry positive done =
      rw (claimed, taken channel (pos n) w₁ retry, positive, done) refl

  -- One round for a channel, where the escrow account's claim gives a yield, no key of the amounts to
  -- retry stands twice, the channel's is not negative, and the transfer of the two together, which
  -- are positive, does not panic and writes no amount to retry: the round returns, the whole of them
  -- is left to retry if the transfer failed, and nothing if it did not; in both cases the yield,
  -- without what was retried, is put on top of the channel's total of external yield.
  pub claim_channel-retries :
      (y : ℤ) (n : ℕ) (sent : Bool) (w w₁ w₂ : World Chain)
      → claim_module_yield env (env.escrow_address env.transfer_port channel) w ≡ (ok y, w₁)
      → Distinct w.dollar.retry_amounts
      → get_retry_amount ibc channel w ≡ pos n
      → is_positive (y +ℤ pos n) ≡ true
      → succeeded (transfer_of (y +ℤ pos n) (emptied channel (pos n) w₁)) ≡ (ok sent, w₂)
      → get_retry_amount ibc channel w₂ ≡ get_retry_amount ibc channel (emptied channel (pos n) w₁)
      → (w' : World Chain) × (claim_channel env channel recipient w ≡ (ok tt, w'))
        × (get_retry_amount ibc channel w' ≡ (if sent then pos 0 else y +ℤ pos n))
        × (lookup {K = YieldKey} (ibc, channel) w'.dollar.total_external_yield
            ≡ some (
                or_zero (lookup {K = YieldKey} (ibc, channel) w₂.dollar.total_external_yield) +ℤ y))
  unfolding increment_total_external_yield get_retry_amount
  claim_channel-retries y n sent w w₁ w₂ claimed distinct retry positive transferred kept =
      let (distinct₁, retry₁) = claimed_same y (pos n) w w₁ claimed distinct retry in
      let (w₃, done, left, same, distinct') =
        put_down channel (transfer_of (y +ℤ pos n)) (y +ℤ pos n) sent (emptied channel (pos n) w₁)
          w₂ transferred (kept ∙ nothing_left channel n w₁ distinct₁ retry₁) in
      (
        (increment_total_external_yield ibc channel y w₃).1,
        claim_channel_ran y n w w₁ w₃ claimed retry₁ positive done,
        left,
        rw (lookup-insert_self, same) refl,
      )
