-- ===== src/Portal/Deliver.antt =====
-- keeper/keeper.go: `Deliver` and `HandlePayload`, and keeper/msg_server_portal.go: `Deliver`.
use dollar.Base.{ℕ, not, some, ◌==◌}
use dollar.Base.Bytes.{Bytes, bytes_eq}
use dollar.Base.Key.{nat_key}
use dollar.Base.Map.{lookup}
use dollar.Types.{
  M, portal_paused, invalid_peer, invalid_message, wrong_destination, bad_address, lift, gets,
  throw_if, or_throw, skip, ◌>>=◌, ◌>>◌,
}
use dollar.Types.Store.{World, m_token_received, transfer_redeemed, delivered}
use dollar.Types.Env.{Env, Vaa}
use dollar.Ntt.Manager.{ManagerMessage, parse_manager_message, manager_message_digest}
use dollar.Ntt.Transceiver.{parse_transceiver_message}
use dollar.Payload.{PayloadType, get_payload_type, decode_token_payload, decode_index_payload}
use dollar.Bank.{on_chain}
use dollar.State.Names.{emit}
use dollar.State.Portal.{get_portal_paused}
use dollar.Index.Update.{update_index, mint}
use dollar.Portal.Constants.{padded_manager_address, raw_token}

module _ {Chain Decimal : Type 0} (env : Env Chain Decimal) where
  -- A payload of the type `Token`: the transfer is minted to its recipient.
  unfoldable pub handle_token : ℕ → ℕ → Bytes → Bytes → Bytes → M (World Chain) (Unit {0})
  handle_token chain source_chain_id sender message_id payload = do
    t ← lift (decode_token_payload payload)
    throw_if (not (chain == t.destination_chain_id)) wrong_destination
    throw_if (not (bytes_eq (raw_token env) t.destination_token)) wrong_destination
    mint env t.recipient t.amount (some t.index)
    recipient ← or_throw (env.bytes_to_string t.recipient) bad_address
    emit (
        m_token_received source_chain_id t.destination_token sender recipient t.amount t.index
          message_id)
    emit (transfer_redeemed message_id)

  unfoldable pub handle_index : ℕ → Bytes → M (World Chain) (Unit {0})
  handle_index chain payload = do
    (raised, destination) ← lift (decode_index_payload payload)
    throw_if (not (chain == destination)) wrong_destination
    update_index env raised

  unfoldable pub handle_payload : ℕ → Bytes → Bytes → Bytes → M (World Chain) (Unit {0})
  unfolding handle_token handle_index
  handle_payload source_chain_id sender message_id payload = do
    chain ← λ w. (env.get_chain w.chain, w)
    elim (get_payload_type payload) [
      | PayloadType.unknown ↦ skip
      | PayloadType.token ↦ handle_token chain source_chain_id sender message_id payload
      | PayloadType.index ↦ handle_index chain payload
    ]

  -- The checks of a verified message against the peer of its chain: returns the manager message.
  unfoldable pub check_message : Vaa → M (World Chain) ManagerMessage
  check_message vaa = do
    found ← gets (λ w. lookup vaa.emitter_chain w.portal.peers)
    peer ← or_throw found invalid_peer
    throw_if (not (bytes_eq peer.transceiver vaa.emitter_address)) invalid_peer
    t ← lift (parse_transceiver_message vaa.payload)
    throw_if (not (bytes_eq peer.manager t.source_manager_address)) invalid_peer
    throw_if (not (bytes_eq (padded_manager_address env) t.recipient_manager_address))
        invalid_message
    lift (parse_manager_message t.manager_payload)

  unfoldable pub deliver_vaa : Bytes → M (World Chain) (Unit {0})
  unfolding check_message handle_payload
  deliver_vaa bz = do
    is_paused ← gets get_portal_paused
    throw_if is_paused portal_paused
    vaa ← on_chain (env.parse_and_verify_vaa bz)
    msg ← check_message vaa
    handle_payload vaa.emitter_chain msg.sender
        (manager_message_digest env.keccak256 vaa.emitter_chain msg) msg.payload

  unfoldable pub deliver : Bytes → M (World Chain) (Unit {0})
  unfolding deliver_vaa
  deliver bz = do deliver_vaa bz; emit (delivered bz)
