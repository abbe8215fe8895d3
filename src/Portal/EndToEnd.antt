-- ===== src/Portal/EndToEnd.antt =====
-- The message of `Transfer` (keeper/msg_server_portal.go) and the decoders of types/portal.
use dollar.Base.{ℕ, ◌≡◌, refl, arith, length, drop, length-append}
use dollar.Base.Int.{ℤ, pos}
use dollar.Base.Bytes.{Bytes, IsU16, IsU64, length-put_uint64}
use dollar.Types.{ok}
use dollar.Payload.{PayloadType, get_payload_type, encode_additional_payload, decode_token_payload}
use dollar.Payload.RoundTrip.{IsI64, decode-encode_token_payload}
use dollar.Types.Env.{Env}
use dollar.Portal.Constants.{raw_token}
use dollar.Portal.Transfer.{MsgTransfer, transfer_message}

length-encode_additional_payload :
    (i : ℤ) (token : Bytes) → length token ≡ 32 → length (encode_additional_payload i token) ≡ 40
unfolding encode_additional_payload
length-encode_additional_payload i token h = rw (length-append, length-put_uint64, h) refl

-- The message that a transfer sends, for a 64-bit amount to a 16-bit chain, with a recipient and
-- tokens of 32 bytes, carries a token payload, from which the other chain decodes the amount, the
-- current index, the recipient without the padding, the destination chain and its token.
pub decode_token_payload-transfer_message :
    {Chain Decimal : Type 0} (env : Env Chain Decimal) (msg : MsgTransfer) (i : ℤ)
    (amount nonce : ℕ) (sender : Bytes)
    → IsI64 i
    → IsU64 amount
    → IsU16 msg.destination_chain_id
    → length msg.recipient ≡ 32
    → length msg.destination_token ≡ 32
    → length (raw_token env) ≡ 32
    → (get_payload_type (transfer_message env msg i amount sender nonce).payload
        ≡ PayloadType.token)
      × (decode_token_payload (transfer_message env msg i amount sender nonce).payload
          ≡ ok (record {
            amount = pos amount;
            index = i;
            recipient = drop 12 msg.recipient;
            destination_chain_id = msg.destination_chain_id;
            destination_token = msg.destination_token;
          }))
unfolding transfer_message
decode_token_payload-transfer_message env msg i amount nonce sender hi ha hc hr ht hs =
    decode-encode_token_payload
      (record {
        amount = amount;
        source_token = raw_token env;
        to = msg.recipient;
        to_chain = msg.destination_chain_id;
        additional_payload = encode_additional_payload i msg.destination_token;
      })
      i msg.destination_token
      (record {
        valid = record {
          amount_u64 = ha;
          source_32 = hs;
          to_32 = hr;
          chain_u16 = hc;
          payload_u16 = omega (arith, length-encode_additional_payload i msg.destination_token ht);
        };
        index_i64 = hi;
        token_32 = ht;
        payload = refl;
      })
