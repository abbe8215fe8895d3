-- ===== src/Portal/Owner.antt =====
-- The owner of the portal, and the messages of the owner: keeper/msg_server_portal.go.
use dollar.Base.{ℕ, ◌≡◌, refl, Bool, true, false, some, length, ◌==◌}
use dollar.Base.Bytes.{Bytes, bytes_eq, bytes_eq_refl}
use dollar.Base.Key.{nat_key, pair_key, bytes_key}
use dollar.Base.Map.{lookup, insert}
use dollar.Base.Map.Laws.{lookup-insert_self, has-some}
use dollar.Types.{ok, err, not_owner}
use dollar.Types.Store.{World, Peer}
use dollar.Types.Env.{Env}
use dollar.State.Portal.{get_portal_paused}
use dollar.Portal.Admin.{
  is_empty, is_identifier, ensure_owner, set_paused_state, set_peer, set_bridging_path,
  transfer_ownership,
}
use dollar.Portal.Transfer.{MsgTransfer, check_transfer}

module _ {Chain Decimal : Type 0} (env : Env Chain Decimal) (signer : Bytes) (w : World Chain) where
  ensure_owner-other :
      (owner : Bytes)
      → w.portal.owner ≡ some owner
      → is_empty owner ≡ false
      → bytes_eq signer owner ≡ false
      → ensure_owner env signer w ≡ (err not_owner, w)
  unfolding ensure_owner
  ensure_owner-other owner e present other = rw (e, present, other) refl

  -- Where the portal has an owner, a message of the portal's administration from any other signer
  -- is refused with the state as it was: pausing, a peer, a bridging path and the ownership.
  pub other_signer-refused :
      (owner : Bytes) (flag : Bool) (chain : ℕ) (transceiver manager token new_owner : Bytes)
      → w.portal.owner ≡ some owner
      → is_empty owner ≡ false
      → bytes_eq signer owner ≡ false
      → (set_paused_state env signer flag w ≡ (err not_owner, w))
        × (set_peer env signer chain transceiver manager w ≡ (err not_owner, w))
        × (set_bridging_path env signer chain token flag w ≡ (err not_owner, w))
        × (transfer_ownership env signer new_owner w ≡ (err not_owner, w))
  unfolding set_paused_state set_peer set_bridging_path transfer_ownership
  other_signer-refused owner flag chain transceiver manager token new_owner e present other =
      let refused = ensure_owner-other owner e present other in
      (rw refused refl, rw refused refl, rw refused refl, rw refused refl)

  ensure_owner_self :
      w.portal.owner ≡ some signer
      → is_empty signer ≡ false
      → ensure_owner env signer w ≡ (ok tt, w)
  unfolding ensure_owner
  ensure_owner_self e present = rw (e, present, bytes_eq_refl signer) refl

  -- The owner hands the ownership over to another valid address that is not empty: the call
  -- succeeds, and afterwards the new owner passes the check of the owner and the old one does not.
  pub transfer_ownership-hands_over :
      (new_owner bz : Bytes)
      → w.portal.owner ≡ some signer
      → is_empty signer ≡ false
      → is_empty new_owner ≡ false
      → env.string_to_bytes new_owner ≡ some bz
      → bytes_eq new_owner signer ≡ false
      → bytes_eq signer new_owner ≡ false
      → (w' : World Chain) × (transfer_ownership env signer new_owner w ≡ (ok tt, w'))
        × (ensure_owner env new_owner w' ≡ (ok tt, w'))
        × (ensure_owner env signer w' ≡ (err not_owner, w'))
  unfolding transfer_ownership ensure_owner
  transfer_ownership-hands_over new_owner bz e present present' valid other other' =
      rw (ensure_owner_self e present, valid, other)
        (_, refl, rw (present', bytes_eq_refl new_owner) refl, rw (present', other') refl)

  -- Whatever the flag `supported` that the owner sets for a path to another chain, and so also
  -- with the flag false, the path is stored with it, and a transfer on the path from an unpaused
  -- portal to a known peer and a recipient of 32 bytes passes all checks of `Transfer`.
  pub set_bridging_path-check_transfer :
      (msg : MsgTransfer) (peer : Peer) (chain : ℕ) (supported : Bool)
      → w.portal.owner ≡ some signer
      → is_empty signer ≡ false
      → env.get_chain w.chain ≡ ok chain
      → (msg.destination_chain_id == chain) ≡ false
      → is_identifier msg.destination_token ≡ true
      → get_portal_paused w ≡ false
      → lookup msg.destination_chain_id w.portal.peers ≡ some peer
      → length msg.recipient ≡ 32
      → (w' : World Chain) × (set_bridging_path env signer msg.destination_chain_id
            msg.destination_token supported w
          ≡ (ok tt, w'))
        × (lookup (msg.destination_chain_id, msg.destination_token) w'.portal.bridging_paths
            ≡ some supported)
        × (check_transfer env msg w' ≡ (ok peer, w'))
  unfolding set_bridging_path check_transfer get_portal_paused
  set_bridging_path-check_transfer msg peer chain supported e present own other valid active found
        recipient =
      let path : ℕ × Bytes = (msg.destination_chain_id, msg.destination_token) in
      let paths = w.portal.bridging_paths in
      let stored = lookup-insert_self path supported paths in
      rw (ensure_owner_self e present, own, other, valid)
        (
          _,
          refl,
          stored,
          rw
              (
                active,
                found,
                has-some path supported (insert path supported paths) stored,
                recipient,
              )
              refl,
        )
