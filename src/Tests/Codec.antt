-- ===== src/Tests/Codec.antt =====
-- Runs of the theorems on the messages and the payloads of the portal.
use dollar.Base.{◌≡◌, refl, arith, drop, replicate}
use dollar.Base.Int.{pos, negsuc}
use dollar.Base.Bytes.{Bytes, put_uint64}
use dollar.Types.{ok}
use dollar.Ntt.Transfer.{NativeTokenTransfer, encode_native_token_transfer}
use dollar.Ntt.RoundTrip.{IsNativeTokenTransfer}
use dollar.Payload.{
  PayloadType, get_payload_type, encode_additional_payload, decode_token_payload,
  encode_index_payload, decode_index_payload,
}
use dollar.Payload.RoundTrip.{IsTransfer, decode-encode_token_payload, decode-encode_index_payload}

abbrev token : Bytes
token = replicate 32 6

-- The additional payload of the index 1.5 and the token.
abbrev sample_transfer : NativeTokenTransfer
sample_transfer = record {
  amount = 1_000_000;
  source_token = replicate 32 3;
  to = replicate 32 4;
  to_chain = 2;
  additional_payload = encode_additional_payload (pos 1_500_000_000_000) token;
}

transfer-valid : IsNativeTokenTransfer sample_transfer
unfolding encode_additional_payload put_uint64
transfer-valid = record {
  amount_u64 = omega arith;
  source_32 = refl;
  to_32 = refl;
  chain_u16 = omega arith;
  payload_u16 = omega arith;
}

sample_transfer-IsTransfer : IsTransfer sample_transfer (pos 1_500_000_000_000) token
sample_transfer-IsTransfer = record {
  valid = transfer-valid;
  index_i64 = omega arith;
  token_32 = refl;
  payload = refl;
}

decode-encode_token_payload_example :
    (get_payload_type (encode_native_token_transfer sample_transfer) ≡ PayloadType.token)
    × (decode_token_payload (encode_native_token_transfer sample_transfer)
        ≡ ok (record {
          amount = pos 1_000_000;
          index = pos 1_500_000_000_000;
          recipient = drop 12 (replicate 32 4);
          destination_chain_id = 2;
          destination_token = token;
        }))
decode-encode_token_payload_example =
    decode-encode_token_payload sample_transfer (pos 1_500_000_000_000) token
      sample_transfer-IsTransfer

decode-encode_index_payload_example :
    (get_payload_type (encode_index_payload (negsuc 4) 2) ≡ PayloadType.index)
    × (decode_index_payload (encode_index_payload (negsuc 4) 2) ≡ ok (negsuc 4, 2))
decode-encode_index_payload_example =
    decode-encode_index_payload (negsuc 4) 2 (omega arith) (omega arith)
