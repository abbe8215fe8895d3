-- ===== src/Portal/Admin.antt =====
-- keeper/msg_server_portal.go: the messages of the portal's owner.
use dollar.Base.{
  ℕ, Bool, true, false, not, Option, none, some, [], ◌∷◌, ◌==◌, if◌then◌else◌, length, replicate,
}
use dollar.Base.Bytes.{Bytes, bytes_eq}
use dollar.Base.Key.{nat_key, pair_key, bytes_key}
use dollar.Base.Map.{lookup, insert}
use dollar.Types.{
  M, Result, ok, err, panic, no_owner, not_owner, same_owner, invalid_peer, invalid_bridge_path,
  bad_address, gets, throw_if, or_throw, ◌>>=◌, ◌>>◌,
}
use dollar.Types.Store.{
  World, Peer, portal_was_paused, portal_was_unpaused, peer_updated, bridging_path_set,
  ownership_transferred,
}
use dollar.Types.Env.{Env}
use dollar.State.Names.{set_portal, emit}

abbrev pub or_empty : Option Bytes → Bytes
or_empty none = []
or_empty (some b) = b

-- A peer that is not there reads as one with empty fields.
abbrev pub or_no_peer : Option Peer → Peer
or_no_peer none = record { transceiver = []; manager = [] }
or_no_peer (some p) = p

abbrev pub is_empty : Bytes → Bool
is_empty [] = true
is_empty (b ∷ bs) = false

-- 32 bytes that are not all zero.
unfoldable pub is_identifier : Bytes → Bool
is_identifier bz = if length bz == 32 then not (bytes_eq bz (replicate 32 0)) else false

module _ {Chain Decimal : Type 0} (env : Env Chain Decimal) where
  unfoldable pub ensure_owner : Bytes → M (World Chain) (Unit {0})
  ensure_owner signer = do
    owner ← gets (λ w. or_empty w.portal.owner)
    throw_if (is_empty owner) no_owner
    throw_if (not (bytes_eq signer owner)) not_owner

  unfoldable pub set_paused_state : Bytes → Bool → M (World Chain) (Unit {0})
  unfolding ensure_owner
  set_paused_state signer to_paused = do
    ensure_owner signer
    set_portal (λ p. record p { paused = some to_paused })
    emit (if to_paused then portal_was_paused else portal_was_unpaused)

  -- An error of `GetChain` refuses the peer, as the portal's own chain does.
  abbrev pub is_own_chain : ℕ → Result ℕ → Result Bool
  is_own_chain chain (ok own) = ok (chain == own)
  is_own_chain chain (err e) = ok true
  is_own_chain chain panic = panic

  unfoldable pub set_peer : Bytes → ℕ → Bytes → Bytes → M (World Chain) (Unit {0})
  unfolding ensure_owner is_identifier
  set_peer signer chain transceiver manager = do
    ensure_owner signer
    throw_if (chain == 0) invalid_peer
    own ← λ w. (is_own_chain chain (env.get_chain w.chain), w)
    throw_if own invalid_peer
    throw_if (not (is_identifier transceiver)) invalid_peer
    throw_if (not (is_identifier manager)) invalid_peer
    peer ← gets (λ w. or_no_peer (lookup chain w.portal.peers))
    set_portal (λ p. record p {
      peers = insert chain (record { transceiver = transceiver; manager = manager }) p.peers;
    })
    emit (peer_updated chain peer.transceiver transceiver peer.manager manager)

  unfoldable pub set_bridging_path : Bytes → ℕ → Bytes → Bool → M (World Chain) (Unit {0})
  unfolding ensure_owner is_identifier
  set_bridging_path signer destination_chain_id destination_token supported = do
    ensure_owner signer
    chain_id ← λ w. (env.get_chain w.chain, w)
    throw_if (destination_chain_id == chain_id) invalid_bridge_path
    throw_if (not (is_identifier destination_token)) invalid_bridge_path
    set_portal (λ p.
        let key : ℕ × Bytes = (destination_chain_id, destination_token) in
        record p { bridging_paths = insert key supported p.bridging_paths })
    emit (bridging_path_set destination_chain_id destination_token supported)

  unfoldable pub transfer_ownership : Bytes → Bytes → M (World Chain) (Unit {0})
  unfolding ensure_owner
  transfer_ownership signer new_owner = do
    ensure_owner signer
    _ ← or_throw (env.string_to_bytes new_owner) bad_address
    throw_if (bytes_eq new_owner signer) same_owner
    set_portal (λ p. record p { owner = some new_owner })
    emit (ownership_transferred signer new_owner)
