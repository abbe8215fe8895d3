-- ===== src/Ibc.antt =====
-- isc4_wrapper.go and ibc_middleware.go: the checks and the bookkeeping around IBC transfers. The
-- wrapped application is a parameter of each function.
pub mod Retry
use dollar.Base.{ℕ, Bool, true, false, not, ◌&&◌, Option, none, some, if◌then◌else◌}
use dollar.Base.Int.{ℤ}
use dollar.Base.Bytes.{Bytes, bytes_eq}
use dollar.Types.{M, Result, ok, err, ibc_disabled, throw, skip, ignore, ◌>>=◌, ◌>>◌}
use dollar.Types.Store.{World}
use dollar.Types.Env.{Env, PacketData}
use dollar.State.Dollar.{ibc, has_yield_recipient, increment_retry_amount}

-- The parts of a packet that the middleware reads.
pub record Packet : Type 0 where
  pub source_port : Bytes
  pub source_channel : Bytes
  pub contents : Bytes

module _ {Chain Decimal : Type 0} (env : Env Chain Decimal) where
  -- A transfer of $USDN is refused on a channel with no yield recipient.
  unfoldable pub is_blocked : Bytes → Bytes → World Chain → Bool
  is_blocked source_channel contents w = elim (env.unmarshal_packet contents) [
    | none ↦ false
    | some packet ↦
        bytes_eq packet.denom env.denom && not (has_yield_recipient ibc source_channel w)
  ]

  unfoldable pub send_packet : M (World Chain) ℕ → Bytes → Bytes → M (World Chain) ℕ
  send_packet underlying source_channel contents w =
      if is_blocked source_channel contents w then (err ibc_disabled, w) else underlying w

  -- The amount of a $USDN packet that the escrow account of its channel sent.
  unfoldable pub amount_to_retry : Packet → Option ℤ
  amount_to_retry packet = elim (env.unmarshal_packet packet.contents) [
    | none ↦ none
    | some p ↦
        if bytes_eq p.denom env.denom
          && bytes_eq p.sender
              (env.address_string (env.escrow_address packet.source_port packet.source_channel))
        then env.int_from_string p.amount
        else none
  ]

  unfoldable pub add_amount_to_retry : Packet → M (World Chain) (Unit {0})
  add_amount_to_retry packet = elim (amount_to_retry packet) [
    | none ↦ skip
    | some amount ↦ ignore (increment_retry_amount ibc packet.source_channel amount)
  ]

  -- An acknowledgement that cannot be read, or of success, adds nothing.
  unfoldable pub on_acknowledgement_packet :
      M (World Chain) (Unit {0}) → Packet → Bytes → M (World Chain) (Unit {0})
  on_acknowledgement_packet underlying packet acknowledgement =
      elim (env.unmarshal_ack acknowledgement) [
        | none ↦ underlying
        | some success ↦ (if success then skip else add_amount_to_retry packet) >> underlying
      ]

  unfoldable pub on_timeout_packet :
      M (World Chain) (Unit {0}) → Packet → M (World Chain) (Unit {0})
  on_timeout_packet underlying packet = add_amount_to_retry packet >> underlying
