-- ===== src/Tests/Portal.antt =====
-- Runs of the theorems on the portal.
use dollar.Base.{◌≡◌, refl, true, false, some, [], ◌∷◌, arith, length, replicate, drop, take}
use dollar.Base.Int.{pos}
use dollar.Base.Bytes.{bytes_eq, codes, put_uint16}
use dollar.Base.Key.{nat_key, pair_key, bytes_key}
use dollar.Base.Map.{lookup}
use dollar.Types.{ok, err, not_owner}
use dollar.Types.Store.{World, Peer}
use dollar.Types.Env.{Vaa}
use dollar.Ntt.Manager.{ManagerMessage, encode_manager_message, parse_manager_message}
use dollar.Ntt.Transceiver.{TransceiverMessage, parse_transceiver_message}
use dollar.Ntt.RoundTrip.{IsManagerMessage, IsTransceiverMessage, parse-encode_transceiver_message}
use dollar.Payload.{PayloadType, get_payload_type, decode_token_payload}
use dollar.Portal.EndToEnd.{decode_token_payload-transfer_message}
use dollar.State.Portal.{get_portal_paused}
use dollar.Portal.Constants.{padded_manager_address, pad_address, raw_token}
use dollar.Portal.Admin.{
  is_identifier, set_paused_state, set_peer, set_bridging_path, transfer_ownership,
}
use dollar.Portal.Deliver.{check_message}
use dollar.Portal.Transfer.{MsgTransfer, check_transfer, transceiver_packet, transfer_message}
use dollar.Portal.Owner.{other_signer-refused, set_bridging_path-check_transfer}
use dollar.Portal.Checks.{check_message-accepts, check_message-transceiver_packet}
use dollar.Bank.Mock.{Balances}
use dollar.Tests.Sample.{alice, bob, owner, sample_env, sample_portal, sample_peer, sample_world}

alice_other : bytes_eq alice owner ≡ false
unfolding bytes_eq
alice_other = refl

owner_other : bytes_eq owner alice ≡ false
unfolding bytes_eq
owner_other = refl

other_signer-refused_example :
    (set_paused_state sample_env alice true sample_world ≡ (err not_owner, sample_world))
    × (set_peer sample_env alice 3 bob bob sample_world ≡ (err not_owner, sample_world))
    × (set_bridging_path sample_env alice 3 bob true sample_world ≡ (err not_owner, sample_world))
    × (transfer_ownership sample_env alice bob sample_world ≡ (err not_owner, sample_world))
other_signer-refused_example =
    other_signer-refused sample_env alice sample_world owner true 3 bob bob bob bob refl refl
      alice_other

-- A transfer to the peer on the chain 2.
abbrev msg : MsgTransfer
msg = record {
  signer = alice;
  amount = pos 10;
  destination_chain_id = 2;
  destination_token = replicate 32 6;
  recipient = replicate 32 7;
}

token_valid : is_identifier (replicate 32 6) ≡ true
unfolding is_identifier bytes_eq
token_valid = refl

portal_open : get_portal_paused sample_world ≡ false
unfolding get_portal_paused
portal_open = refl

peer_found : lookup 2 sample_world.portal.peers ≡ some sample_peer
unfolding lookup
peer_found = refl

set_bridging_path-check_transfer_example :
    (w' : World Balances) × (set_bridging_path sample_env owner 2
        (replicate 32 6)
        false
        sample_world
      ≡ (ok tt, w'))
    × (lookup (2, replicate 32 6) w'.portal.bridging_paths ≡ some false)
    × (check_transfer sample_env msg w' ≡ (ok sample_peer, w'))
set_bridging_path-check_transfer_example =
    set_bridging_path-check_transfer sample_env owner sample_world msg sample_peer 4009 false refl
      refl refl refl token_valid portal_open peer_found refl

abbrev stranger : Vaa
stranger = record { emitter_chain = 2; emitter_address = alice; payload = [] }

peer_other : bytes_eq (codes "t") alice ≡ false
unfolding bytes_eq
peer_other = refl

abbrev message : ManagerMessage
message = record { id = replicate 32 1; sender = replicate 32 2; payload = 7 ∷ 8 ∷ 9 ∷ [] }

message-valid : IsManagerMessage message
message-valid = record { id_32 = refl; sender_32 = refl; payload_u16 = omega arith }

message_fits : length (encode_manager_message message) ≡ 69
unfolding encode_manager_message put_uint16
message_fits = refl

manager_32 : length (padded_manager_address sample_env) ≡ 32
unfolding padded_manager_address pad_address take
manager_32 = refl

-- Both portals have the same manager address, as on two chains of the same modules.
abbrev other_peer : Peer
other_peer = record { transceiver = codes "t"; manager = padded_manager_address sample_env }

abbrev delivered_vaa : Vaa
delivered_vaa = record {
  emitter_chain = 2;
  emitter_address = codes "t";
  payload = transceiver_packet sample_env other_peer message;
}

abbrev peer_world : World Balances
peer_world = record sample_world { portal = record sample_portal { peers = (2, other_peer) ∷ [] } }

other_peer_found : lookup 2 peer_world.portal.peers ≡ some other_peer
unfolding lookup
other_peer_found = refl

check_message-transceiver_packet_example :
    check_message sample_env delivered_vaa peer_world ≡ (ok message, peer_world)
check_message-transceiver_packet_example =
    check_message-transceiver_packet sample_env sample_env other_peer other_peer message
      delivered_vaa peer_world message-valid (omega (arith, message_fits)) manager_32 manager_32
      refl other_peer_found refl refl refl

abbrev other_packet : TransceiverMessage
other_packet = record {
  source_manager_address = padded_manager_address sample_env;
  recipient_manager_address = padded_manager_address sample_env;
  manager_payload = encode_manager_message message;
  transceiver_payload = [];
}

other_packet-valid : IsTransceiverMessage other_packet
other_packet-valid = record {
  source_32 = manager_32;
  recipient_32 = manager_32;
  manager_u16 = omega (arith, message_fits);
  transceiver_u16 = omega arith;
}

other_packet_parsed : parse_transceiver_message delivered_vaa.payload ≡ ok other_packet
unfolding transceiver_packet
other_packet_parsed = parse-encode_transceiver_message other_packet other_packet-valid

other_packet_accepted : check_message sample_env delivered_vaa peer_world ≡ (ok message, peer_world)
other_packet_accepted =
    check_message-transceiver_packet sample_env sample_env other_peer other_peer message
      delivered_vaa peer_world message-valid (omega (arith, message_fits)) manager_32 manager_32
      refl other_peer_found refl refl refl

check_message-accepts_example :
    (peer_world ≡ peer_world)
    × (other_peer.transceiver ≡ delivered_vaa.emitter_address)
    × (other_peer.manager ≡ other_packet.source_manager_address)
    × (padded_manager_address sample_env ≡ other_packet.recipient_manager_address)
    × (parse_manager_message other_packet.manager_payload ≡ ok message)
check_message-accepts_example =
    check_message-accepts sample_env delivered_vaa peer_world peer_world other_peer other_packet
      message other_peer_found other_packet_parsed other_packet_accepted

raw_token_32 : length (raw_token sample_env) ≡ 32
unfolding raw_token
raw_token_32 = refl

decode_token_payload-transfer_message_example :
    (get_payload_type (transfer_message sample_env msg (pos 1_500_000_000_000) 10 alice 7).payload
      ≡ PayloadType.token)
    × (decode_token_payload
          (transfer_message sample_env msg (pos 1_500_000_000_000) 10 alice 7).payload
        ≡ ok (record {
          amount = pos 10;
          index = pos 1_500_000_000_000;
          recipient = drop 12 (replicate 32 7);
          destination_chain_id = 2;
          destination_token = replicate 32 6;
        }))
decode_token_payload-transfer_message_example =
    decode_token_payload-transfer_message sample_env msg (pos 1_500_000_000_000) 10 7 alice
      (omega arith) (omega arith) (omega arith) refl refl raw_token_32
