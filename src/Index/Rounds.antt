-- ===== src/Index/Rounds.antt =====
-- Rounds of `claimExternalYieldIBC` (keeper/msg_server_v2.go) for one channel, as transfers fail and
-- a later one succeeds.
use dollar.Base.{
  ℕ, ◌+◌, ◌<◌, ◌≡◌, ◌∙◌, sym, ap, Bool, true, false, List, [], ◌∷◌, arith, if◌then◌else◌,
}
use dollar.Base.Int.{pos, ◌+ℤ◌, is_positive, int_laws}
use dollar.Base.Bytes.{Bytes}
use dollar.Base.Key.{int_key, bytes_key, pair_key}
use dollar.Base.Map.Entries.{Distinct}
use dollar.Types.{ok}
use dollar.Types.Store.{World}
use dollar.Types.Env.{Env}
use dollar.State.Dollar.{ibc, get_retry_amount, increment_total_external_yield}
use dollar.Yield.{claim_module_yield}
use dollar.Index.External.{claim_channel, succeeded}
use dollar.Index.Retrying.{
  same_retry, claimed_same, emptied, emptied-Distinct, nothing_left, put_down, claim_channel_ran,
  transfer_of,
}

-- The yields of the rounds together.
abbrev pub owed : List ℕ → ℕ
owed [] = 0
owed (y ∷ ys) = y + owed ys

module _ {Chain Decimal : Type 0} (channel recipient : Bytes) where
  -- What happens in a round, with an amount to retry: the escrow account's claim gives a yield, and
  -- the transfer of the two together, which are not both 0, is sent or fails, and leaves the
  -- amounts to retry.
  pub record Round (env : Env Chain Decimal) (yield amount : ℕ) (sent : Bool) (w : World Chain)
      : Type 0 where
    pub claimed_world : World Chain
    pub sent_world : World Chain
    pub claims :
        claim_module_yield env (env.escrow_address env.transfer_port channel) w
        ≡ (ok (pos yield), claimed_world)
    pub positive : 0 < yield + amount
    pub transfers :
        succeeded (
          transfer_of env channel recipient
            (pos (yield + amount))
            (emptied channel (pos amount) claimed_world))
        ≡ (ok sent, sent_world)
    pub leaves :
        sent_world.dollar.retry_amounts
        ≡ (emptied channel (pos amount) claimed_world).dollar.retry_amounts

  round :
      (env : Env Chain Decimal) (y n : ℕ) (sent : Bool) (w : World Chain)
      → Distinct w.dollar.retry_amounts
      → get_retry_amount ibc channel w ≡ pos n
      → Round env y n sent w
      → (w' : World Chain) × (claim_channel env channel recipient w ≡ (ok tt, w'))
        × (get_retry_amount ibc channel w' ≡ (if sent then pos 0 else pos (y + n)))
        × Distinct w'.dollar.retry_amounts
  unfolding increment_total_external_yield get_retry_amount
  round env y n sent w distinct retry r =
      let (distinct₁, retry₁) =
        claimed_same env channel recipient (pos y) (pos n) w r.claimed_world r.claims distinct
          retry in
      let (w₃, done, left, _, distinct₃) =
        put_down channel (transfer_of env channel recipient (pos (y + n))) (pos (y + n)) sent
          (emptied channel (pos n) r.claimed_world) r.sent_world r.transfers
          (same_retry channel (emptied channel (pos n) r.claimed_world) r.sent_world r.leaves
            ∙ nothing_left channel n r.claimed_world distinct₁ retry₁) in
      let added : pos y +ℤ pos n ≡ pos (y + n) = omega int_laws in
      let positive : is_positive (pos y +ℤ pos n) ≡ true = rw added (ground (arith, r.positive)) in
      (
        (increment_total_external_yield ibc channel (pos y) w₃).1,
        claim_channel_ran env channel recipient (pos y) n w r.claimed_world w₃ r.claims retry₁
            positive (rw added done),
        left,
        distinct₃ (rw r.leaves (emptied-Distinct channel (pos n) r.claimed_world distinct₁)),
      )

module _ {Chain : Type 0} (Decimal : Type 0) (channel recipient : Bytes) where
  -- Rounds whose transfers fail, from one state to another, with the amount to retry that they find
  -- and the yields that they claim. In between anything may happen that leaves the amounts to retry.
  pub data Failures : ℕ → List ℕ → World Chain → World Chain → Type 0 where
    stop : {n : ℕ} {w : World Chain} → Failures n [] w w
    between :
        {n : ℕ} {ys : List ℕ} {w w₁ w' : World Chain}
        → w₁.dollar.retry_amounts ≡ w.dollar.retry_amounts
        → Failures n ys w₁ w'
        → Failures n ys w w'
    failed :
        {env : Env Chain Decimal} {y n : ℕ} {ys : List ℕ} {w w₁ w' : World Chain}
        → Round channel recipient env y n false w
        → claim_channel env channel recipient w ≡ (ok tt, w₁)
        → Failures (y + n) ys w₁ w'
        → Failures n (y ∷ ys) w w'

  withheld :
      {n : ℕ} {ys : List ℕ} {w w' : World Chain}
      → Failures n ys w w'
      → Distinct w.dollar.retry_amounts
      → get_retry_amount ibc channel w ≡ pos n
      → Distinct w'.dollar.retry_amounts × (get_retry_amount ibc channel w' ≡ pos (owed ys + n))
  withheld stop d e = (d, e ∙ ap pos (omega arith))
  withheld (between {w} {w₁} same f) d e = withheld f (rw same d) (same_retry channel w w₁ same ∙ e)
  withheld (failed {env} {y} {n} {ys} {w} {w₁} r ran f) d e =
      let (w₂, again, left, distinct) = round channel recipient env y n false w d e r in
      let at : w₂ ≡ w₁ = ap (λ p. p.1) (sym again ∙ ran) in
      let (distinct', waiting) =
        withheld f (rw (sym at) distinct) (ap (get_retry_amount ibc channel) (sym at) ∙ left) in
      (distinct', waiting ∙ ap pos (omega arith))

  -- Where no key of the amounts to retry stands twice: after rounds of a channel whose transfers
  -- failed, with anything in between that leaves the amounts to retry, what waits is all that their
  -- claims gave, on top of what waited before; and the first round whose transfer of all of this
  -- with the round's own yield succeeds returns, and leaves nothing to retry.
  pub claim_channel-delivers :
      (env : Env Chain Decimal) (n y : ℕ) (ys : List ℕ) (w w' : World Chain)
      → Distinct w.dollar.retry_amounts
      → get_retry_amount ibc channel w ≡ pos n
      → Failures n ys w w'
      → Round channel recipient env y (owed ys + n) true w'
      → (get_retry_amount ibc channel w' ≡ pos (owed ys + n))
        × ((w'' : World Chain) × (claim_channel env channel recipient w' ≡ (ok tt, w''))
            × (get_retry_amount ibc channel w'' ≡ pos 0))
  claim_channel-delivers env n y ys w w' distinct retry failures r =
      let (distinct', waiting) = withheld failures distinct retry in
      let (w'', ran, left, _) =
        round channel recipient env y (owed ys + n) true w' distinct' waiting r in
      (waiting, (w'', ran, left))
