-- ===== src/Ibc/Retry.antt =====
-- What failed transfers add to the amounts to retry, and which channels are open:
-- ibc_middleware.go and isc4_wrapper.go.
use dollar.Base.{ℕ, ◌≡◌, ◌≢◌, refl, true, false, some, Option-cases, inl, inr, Bool-cases}
use dollar.Base.Int.{ℤ, ◌+ℤ◌}
use dollar.Base.Bytes.{Bytes, bytes_eq, bytes_eq_refl}
use dollar.Base.Key.{pair_key, int_key, bytes_key}
use dollar.Base.Map.{insert}
use dollar.Base.Map.Laws.{lookup-insert_self, lookup-insert_ne, has-some}
use dollar.Types.{M, ok}
use dollar.Types.Store.{World, YieldKey}
use dollar.Types.Env.{Env}
use dollar.State.Dollar.{ibc, has_yield_recipient, get_retry_amount, increment_retry_amount}
use dollar.Recipients.{set_yield_recipient, check_identifier}
use dollar.Ibc.{
  Packet, is_blocked, send_packet, amount_to_retry, add_amount_to_retry, on_timeout_packet,
  on_acknowledgement_packet,
}

module _ {Chain Decimal : Type 0} (env : Env Chain Decimal)
    (underlying : M (World Chain) (Unit {0})) (packet : Packet) where
  abbrev added : ℤ → World Chain → World Chain
  added amount w = record w {
    dollar = record (w.dollar) {
      retry_amounts =
          insert {K = YieldKey} (ibc, packet.source_channel)
            (get_retry_amount ibc packet.source_channel w +ℤ amount) w.dollar.retry_amounts;
    };
  }

  get_retry_amount-added :
      (amount : ℤ) (w : World Chain)
      → get_retry_amount ibc packet.source_channel (added amount w)
        ≡ get_retry_amount ibc packet.source_channel w +ℤ amount
  unfolding get_retry_amount
  get_retry_amount-added amount w = rw lookup-insert_self refl

  get_retry_amount-added_ne :
      (amount : ℤ) (provider : ℤ) (identifier : Bytes) (w : World Chain)
      → ◌≢◌ {A = YieldKey} (ibc, packet.source_channel) (provider, identifier)
      → get_retry_amount provider identifier (added amount w)
        ≡ get_retry_amount provider identifier w
  unfolding get_retry_amount
  get_retry_amount-added_ne amount provider identifier w ne =
      rw
        (lookup-insert_ne {K = YieldKey} (ibc, packet.source_channel) (provider, identifier)
          (get_retry_amount ibc packet.source_channel w +ℤ amount) w.dollar.retry_amounts ne)
        refl

  added_by :
      (w : World Chain) (amount : ℤ)
      → amount_to_retry env packet ≡ some amount
      → add_amount_to_retry env packet w ≡ (ok tt, added amount w)
  unfolding add_amount_to_retry increment_retry_amount
  added_by w amount e = rw (e, add_amount_to_retry) refl

  -- A timeout, and an acknowledgement of an error, of a packet that holds an amount to retry hand
  -- the same state on to the wrapped application: there the amount to retry of the packet's channel
  -- is what it was and the packet's amount on top, and that of any other key is what it was.
  pub failed_transfer-adds :
      (amount : ℤ) (acknowledgement : Bytes) (provider : ℤ) (identifier : Bytes) (w : World Chain)
      → amount_to_retry env packet ≡ some amount
      → env.unmarshal_ack acknowledgement ≡ some false
      → ◌≢◌ {A = YieldKey} (ibc, packet.source_channel) (provider, identifier)
      → (w₁ : World Chain) × (on_timeout_packet env underlying packet w ≡ underlying w₁)
        × (on_acknowledgement_packet env underlying packet acknowledgement w ≡ underlying w₁)
        × (get_retry_amount ibc packet.source_channel w₁
            ≡ get_retry_amount ibc packet.source_channel w +ℤ amount)
        × (get_retry_amount provider identifier w₁ ≡ get_retry_amount provider identifier w)
  unfolding on_timeout_packet on_acknowledgement_packet
  failed_transfer-adds amount acknowledgement provider identifier w some_amount failed ne =
      let timeout : on_timeout_packet env underlying packet w ≡ underlying (added amount w) =
        rw (added_by w amount some_amount) refl in
      (
        added amount w,
        timeout,
        rw (failed, on_acknowledgement_packet) timeout,
        get_retry_amount-added amount w,
        get_retry_amount-added_ne amount provider identifier w ne,
      )

module _ {Chain Decimal : Type 0} (env : Env Chain Decimal) (underlying : M (World Chain) ℕ) where
  open-is_blocked :
      (channel contents : Bytes) (w : World Chain)
      → has_yield_recipient ibc channel w ≡ true
      → is_blocked env channel contents w ≡ false
  unfolding is_blocked
  open-is_blocked channel contents w e = elim (Option-cases (env.unmarshal_packet contents)) [
    | inl n ↦ rw (n, is_blocked) refl
    | inr (data', n) ↦ elim (Bool-cases (bytes_eq (data'.denom) env.denom)) [
      | inl c ↦ rw (n, is_blocked, c, e) refl
      | inr c ↦ rw (n, is_blocked, c) refl
    ]
  ]

  open-send_packet :
      (channel contents : Bytes) (w : World Chain)
      → has_yield_recipient ibc channel w ≡ true
      → send_packet env underlying channel contents w ≡ underlying w
  unfolding send_packet
  open-send_packet channel contents w e = rw (open-is_blocked channel contents w e) refl

  opened :
      (channel recipient : Bytes) (w w' : World Chain)
      → w'.dollar.yield_recipients
        ≡ insert {K = YieldKey} (ibc, channel) recipient w.dollar.yield_recipients
      → has_yield_recipient ibc channel w' ≡ true
  unfolding has_yield_recipient
  opened channel recipient w w' e =
      let key : YieldKey = (ibc, channel) in
      let m = w.dollar.yield_recipients in
      rw e (has-some key recipient (insert key recipient m) (lookup-insert_self key recipient m))

  -- The authority opens a channel: where the channel exists, setting a yield recipient for it
  -- succeeds, and afterwards the wrapper hands every packet on the channel to the wrapped
  -- application, whatever the packet holds.
  pub set_yield_recipient-send_packet :
      (channel recipient contents : Bytes) (w : World Chain)
      → env.has_channel w.chain channel ≡ true
      → (w' : World Chain) × (set_yield_recipient env env.authority ibc channel recipient w
          ≡ (ok tt, w'))
        × (send_packet env underlying channel contents w' ≡ underlying w')
  unfolding set_yield_recipient check_identifier
  set_yield_recipient-send_packet channel recipient contents w exists =
      rw (bytes_eq_refl env.authority, exists)
        (_, refl, open-send_packet channel contents _ (opened channel recipient w _ refl))
