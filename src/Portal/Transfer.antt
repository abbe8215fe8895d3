-- ===== src/Portal/Transfer.antt =====
-- keeper/msg_server_portal.go: `Transfer`.
use dollar.Base.{ℕ, not, [], ◌++◌, ◌==◌, length, replicate}
use dollar.Base.Int.{ℤ}
use dollar.Base.Bytes.{Bytes, put_uint32}
use dollar.Base.Key.{nat_key, pair_key, bytes_key}
use dollar.Base.Map.{lookup, has}
use dollar.Types.{
  M, pure, portal_paused, invalid_peer, invalid_bridge_path, invalid_recipient, bad_address, lift,
  gets, get_item, throw_if, or_throw, ◌>>=◌, ◌>>◌,
}
use dollar.Types.Store.{World, Peer, usdn_token_sent, transfer_sent, transfer_digest}
use dollar.Types.Env.{Env}
use dollar.Ntt.Manager.{ManagerMessage, encode_manager_message, manager_message_digest}
use dollar.Ntt.Transceiver.{encode_transceiver_message}
use dollar.Ntt.Transfer.{encode_native_token_transfer}
use dollar.Payload.{encode_additional_payload}
use dollar.Bank.{on_chain}
use dollar.State.Names.{emit}
use dollar.State.Portal.{get_portal_paused, increment_portal_nonce}
use dollar.Yield.{burn}
use dollar.Portal.Constants.{
  pad_left, padded_manager_address, transceiver_address, raw_token, uint64_of, int64_of,
}

pub record MsgTransfer : Type 0 where
  pub signer : Bytes
  pub amount : ℤ
  pub destination_chain_id : ℕ
  pub destination_token : Bytes
  pub recipient : Bytes

module _ {Chain Decimal : Type 0} (env : Env Chain Decimal) where
  -- The checks before anything is written: returns the peer.
  unfoldable pub check_transfer : MsgTransfer → M (World Chain) Peer
  check_transfer msg = do
    is_paused ← gets get_portal_paused
    throw_if is_paused portal_paused
    found ← gets (λ w. lookup msg.destination_chain_id w.portal.peers)
    peer ← or_throw found invalid_peer
    known ← gets (λ w.
        let key : ℕ × Bytes = (msg.destination_chain_id, msg.destination_token) in
        has key w.portal.bridging_paths)
    throw_if (not known) invalid_bridge_path
    throw_if (not (length msg.recipient == 32)) invalid_recipient
    pure peer

  -- The message for the other chain.
  unfoldable pub transfer_message : MsgTransfer → ℤ → ℕ → Bytes → ℕ → ManagerMessage
  transfer_message msg current_index amount raw_sender nonce = record {
    id = replicate 28 0 ++ put_uint32 nonce;
    sender = raw_sender;
    payload = encode_native_token_transfer (record {
      amount = amount;
      source_token = raw_token env;
      to = msg.recipient;
      to_chain = msg.destination_chain_id;
      additional_payload = encode_additional_payload current_index msg.destination_token;
    });
  }

  -- The packet that is posted to Wormhole.
  unfoldable pub transceiver_packet : Peer → ManagerMessage → Bytes
  transceiver_packet peer manager_message = encode_transceiver_message (record {
    source_manager_address = padded_manager_address env;
    recipient_manager_address = peer.manager;
    manager_payload = encode_manager_message manager_message;
    transceiver_payload = [];
  })

  unfoldable pub transfer : MsgTransfer → M (World Chain) (Unit {0})
  unfolding check_transfer transfer_message transceiver_packet
  transfer msg = do
    peer ← check_transfer msg
    current_index ← get_item (λ w. w.dollar.index)
    amount ← lift (uint64_of msg.amount)
    sender ← or_throw (env.string_to_bytes msg.signer) bad_address
    raw_sender ← lift (pad_left sender)
    nonce ← increment_portal_nonce
    let manager_message = transfer_message msg current_index amount raw_sender nonce
    chain ← λ w. (env.get_chain w.chain, w)
    let message_id = manager_message_digest env.keccak256 chain manager_message
    burn env sender msg.amount
    on_chain
        (env.post_message (transceiver_address env) (transceiver_packet peer manager_message) nonce)
    emit (
        usdn_token_sent (raw_token env) msg.destination_chain_id msg.destination_token msg.signer
          msg.recipient msg.amount current_index message_id)
    amount_i64 ← lift (int64_of msg.amount)
    emit (transfer_sent msg.recipient amount_i64 msg.destination_chain_id nonce)
    emit (transfer_digest message_id)
