-- ===== src/Payload/RoundTrip.antt =====
-- The encoders of types/portal/payload.go and additional_payload.go against the decoders.
use dollar.Base.{
  ℕ, ◌<◌, ◌^◌, ◌≡◌, refl, arith, ◌++◌, length, length-append, drop, drop-append, take-append,
  take_all,
}
use dollar.Base.Int.{ℤ, pos, negsuc, to_int64, to_uint64}
use dollar.Base.Bytes.{
  Bytes, IsU16, IsU64, put_uint16, put_uint64, bytes_eq, uint_be-put_uint16, uint_be-put_uint64,
  length-put_uint16, length-put_uint64,
}
use dollar.Types.{ok}
use dollar.Ntt.Slice.{At-zero, At-next, slice-At, slice-At_last}
use dollar.Ntt.Transfer.{
  NativeTokenTransfer, native_token_transfer_prefix, encode_native_token_transfer,
}
use dollar.Ntt.RoundTrip.{IsNativeTokenTransfer, parse-encode_native_token_transfer}
use dollar.Payload.{
  m0it, PayloadType, get_payload_type, encode_additional_payload, decode_additional_payload,
  decode_token_payload, decode_index_payload, encode_index_payload,
}

-- The range of an int64.
abbrev pub IsI64 : ℤ → Type 0
IsI64 (pos n) = n < 2 ^ 63
IsI64 (negsuc n) = n < 2 ^ 63

to_int64-to_uint64 : (i : ℤ) → IsI64 i → (to_int64 (to_uint64 i) ≡ i) × IsU64 (to_uint64 i)
to_int64-to_uint64 (pos n) h = (ground arith, omega arith)
to_int64-to_uint64 (negsuc n) h = (ground arith, omega arith)

-- An index payload is recognised as one, and gives back its int64 index, negative or not, and its
-- 16-bit destination chain.
pub decode-encode_index_payload :
    (i : ℤ) (d : ℕ)
    → IsI64 i
    → IsU16 d
    → (get_payload_type (encode_index_payload i d) ≡ PayloadType.index)
      × (decode_index_payload (encode_index_payload i d) ≡ ok (i, d))
unfolding encode_index_payload decode_index_payload get_payload_type put_uint64 put_uint16
decode-encode_index_payload i d hi hd =
    let n = put_uint64 (to_uint64 i) in
    let k = put_uint16 d in
    let bz = m0it ++ (n ++ k) in
    let at₀ = At-zero bz in
    let at₁ = At-next bz 0 4 m0it (n ++ k) at₀ refl in
    let at₂ = At-next bz 4 8 n k at₁ (length-put_uint64 (to_uint64 i)) in
    (
      rw (take-append m0it (n ++ k) 4 refl) (unfold bytes_eq in refl),
      rw (
        slice-At bz 4 8 n k at₁ (length-put_uint64 (to_uint64 i)),
        slice-At_last bz 12 2 k at₂ (length-put_uint16 d),
        uint_be-put_uint64 (to_uint64 i) (to_int64-to_uint64 i hi).1,
        uint_be-put_uint16 d hd,
        (to_int64-to_uint64 i hi).0,
      ),
    )

get_payload_type-encode :
    (t : NativeTokenTransfer)
    → get_payload_type (encode_native_token_transfer t) ≡ PayloadType.token
unfolding get_payload_type encode_native_token_transfer bytes_eq
get_payload_type-encode t = rw (take-append native_token_transfer_prefix _ 4 refl) (ground arith)

decode-encode_additional_payload :
    (i : ℤ) (t : Bytes)
    → IsI64 i
    → length t ≡ 32
    → decode_additional_payload (encode_additional_payload i t) ≡ ok (i, t)
unfolding decode_additional_payload encode_additional_payload
decode-encode_additional_payload i t hi ht =
    let n = put_uint64 (to_uint64 i) in
    let l = length-put_uint64 (to_uint64 i) in
    rw
      (
        take-append n t 8 l,
        drop-append n t 8 l,
        uint_be-put_uint64 (to_uint64 i) (to_int64-to_uint64 i hi).1,
        (to_int64-to_uint64 i hi).0,
        take_all t 32 ht,
      )
      (ground (arith, length-append n t, l))

pub record IsTransfer (t : NativeTokenTransfer) (i : ℤ) (destination_token : Bytes) : Type 0 where
  pub valid : IsNativeTokenTransfer t
  pub index_i64 : IsI64 i
  pub token_32 : length destination_token ≡ 32
  pub payload : t.additional_payload ≡ encode_additional_payload i destination_token

-- A transfer as the portal sends it, with the index and the destination token as its additional
-- payload, is recognised as a token payload and decoded to its amount, index, recipient without
-- the padding, destination chain and destination token.
pub decode-encode_token_payload :
    (t : NativeTokenTransfer) (i : ℤ) (destination_token : Bytes)
    → IsTransfer t i destination_token
    → (get_payload_type (encode_native_token_transfer t) ≡ PayloadType.token)
      × (decode_token_payload (encode_native_token_transfer t)
          ≡ ok (record {
            amount = pos t.amount;
            index = i;
            recipient = drop 12 t.to;
            destination_chain_id = t.to_chain;
            destination_token = destination_token;
          }))
unfolding decode_token_payload
decode-encode_token_payload t i token v = (
  get_payload_type-encode t,
  rw (
    parse-encode_native_token_transfer t v.valid,
    decode_token_payload,
    v.payload,
    decode-encode_additional_payload i token v.index_i64 v.token_32,
  ),
)
