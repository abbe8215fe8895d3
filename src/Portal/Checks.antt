-- ===== src/Portal/Checks.antt =====
-- The checks of `Deliver` (keeper/keeper.go), also against the packets of `Transfer`.
use dollar.Base.{◌≡◌, refl, false, none, some, arith, length, inl, inr, ◌⊎◌, []}
use dollar.Base.Bytes.{bytes_eq, bytes_eq_refl, bytes_eq_iff, IsU16}
use dollar.Base.Key.{nat_key}
use dollar.Base.Map.{lookup}
use dollar.Types.{ok, err, invalid_peer}
use dollar.Types.Store.{World, Peer}
use dollar.Types.Env.{Env, Vaa}
use dollar.Ntt.Manager.{ManagerMessage, encode_manager_message, parse_manager_message}
use dollar.Ntt.Transceiver.{TransceiverMessage, parse_transceiver_message}
use dollar.Ntt.RoundTrip.{
  IsManagerMessage, parse-encode_manager_message, parse-encode_transceiver_message,
}
use dollar.Portal.Constants.{padded_manager_address}
use dollar.Portal.Deliver.{check_message}
use dollar.Portal.Transfer.{transceiver_packet}

module _ {Chain Decimal : Type 0} (env : Env Chain Decimal) (vaa : Vaa) (w : World Chain) where
  -- A message is refused, with the state as it was, where its chain has no peer, and where the
  -- chain's peer has another transceiver than the emitter.
  pub check_message-refused :
      ((lookup vaa.emitter_chain w.portal.peers ≡ none)
        ⊎ ((peer : Peer) × (lookup vaa.emitter_chain w.portal.peers ≡ some peer)
            × (bytes_eq peer.transceiver vaa.emitter_address ≡ false)))
      → check_message env vaa w ≡ (err invalid_peer, w)
  unfolding check_message
  check_message-refused (inl e) = rw e refl
  check_message-refused (inr (peer, e, other)) = rw (e, other) refl

-- A message that the portal accepts from a chain with a peer comes from the peer's transceiver,
-- names the peer's manager as its source and the portal's own manager as its recipient, and holds
-- the manager message that is returned; the checks write nothing.
pub check_message-accepts :
    {Chain Decimal : Type 0} (env : Env Chain Decimal) (vaa : Vaa) (w w' : World Chain)
    (peer : Peer) (t : TransceiverMessage) (m : ManagerMessage)
    → lookup vaa.emitter_chain w.portal.peers ≡ some peer
    → parse_transceiver_message vaa.payload ≡ ok t
    → check_message env vaa w ≡ (ok m, w')
    → (w' ≡ w)
      × (peer.transceiver ≡ vaa.emitter_address)
      × (peer.manager ≡ t.source_manager_address)
      × (padded_manager_address env ≡ t.recipient_manager_address)
      × (parse_manager_message t.manager_payload ≡ ok m)
unfolding check_message
check_message-accepts env vaa w w' peer t m found parsed accepted = ground (
  arith,
  bytes_eq_iff peer.transceiver vaa.emitter_address,
  bytes_eq_iff peer.manager t.source_manager_address,
  bytes_eq_iff (padded_manager_address env) t.recipient_manager_address,
)

-- A packet that one chain's portal sends to a peer passes the checks of a portal whose peer for the
-- emitting chain has the emitter as its transceiver and the sending manager as its manager, and
-- whose own manager is the one the packet names: the checks succeed with the very message that was
-- sent, and write nothing.
pub check_message-transceiver_packet :
    {Chain Decimal : Type 0} (source destination : Env Chain Decimal) (to from : Peer)
    (m : ManagerMessage) (vaa : Vaa) (w : World Chain)
    → IsManagerMessage m
    → IsU16 (length (encode_manager_message m))
    → length to.manager ≡ 32
    → length (padded_manager_address source) ≡ 32
    → vaa.payload ≡ transceiver_packet source to m
    → lookup vaa.emitter_chain w.portal.peers ≡ some from
    → from.transceiver ≡ vaa.emitter_address
    → from.manager ≡ padded_manager_address source
    → to.manager ≡ padded_manager_address destination
    → check_message destination vaa w ≡ (ok m, w)
unfolding check_message transceiver_packet
check_message-transceiver_packet source destination to from m vaa w valid fits to_32 from_32 sent
      found emitter manager recipient =
    let packet : TransceiverMessage = record {
      source_manager_address = padded_manager_address source;
      recipient_manager_address = to.manager;
      manager_payload = encode_manager_message m;
      transceiver_payload = [];
    } in
    let parsed = parse-encode_transceiver_message packet (record {
      source_32 = from_32;
      recipient_32 = to_32;
      manager_u16 = fits;
      transceiver_u16 = omega arith;
    }) in
    rw
      (
        found,
        emitter,
        bytes_eq_refl vaa.emitter_address,
        sent,
        parsed,
        manager,
        bytes_eq_refl (padded_manager_address source),
        recipient,
        bytes_eq_refl (padded_manager_address destination),
        parse-encode_manager_message m valid,
      )
      refl
