-- ===== src/Payload.antt =====
-- types/portal/payload.go and types/portal/additional_payload.go: the custom payloads of the portal.
pub mod RoundTrip
use dollar.Base.{
  ℕ, ◌+◌, Bool, true, false, List, [], ◌∷◌, ◌++◌, ltb, if◌then◌else◌, length, take, drop,
}
use dollar.Base.Int.{ℤ, pos, to_int64, to_uint64}
use dollar.Base.Bytes.{Bytes, bytes_eq, put_uint16, put_uint64, uint_be}
use dollar.Types.{Result, ok, err, panic, malformed}
use dollar.Types.Outcome.{◌>>=◌}
use dollar.Ntt.Slice.{slice}
use dollar.Ntt.Transfer.{
  NativeTokenTransfer, native_token_transfer_prefix, parse_native_token_transfer,
}

pub data PayloadType : Type 0 where
  unknown token index : PayloadType

-- The bytes of `M0IT`.
abbrev pub m0it : Bytes
m0it = 0x4d ∷ 0x30 ∷ 0x49 ∷ 0x54 ∷ []

-- The four bytes are compared through their hexadecimal text in the source.
unfoldable pub get_payload_type : Bytes → PayloadType
get_payload_type payload =
    if ltb (length payload) 4
    then PayloadType.unknown
    else if bytes_eq (take 4 payload) native_token_transfer_prefix
    then PayloadType.token
    else if bytes_eq (take 4 payload) m0it
    then PayloadType.index
    else PayloadType.unknown

unfoldable pub encode_additional_payload : ℤ → Bytes → Bytes
encode_additional_payload i destination_token = put_uint64 (to_uint64 i) ++ destination_token

unfoldable pub decode_additional_payload : Bytes → Result (ℤ × Bytes)
decode_additional_payload bz =
    if ltb (length bz) 40
    then err malformed
    else ok (to_int64 (uint_be (take 8 bz)), take 32 (drop 8 bz))

pub record TokenPayload : Type 0 where
  pub amount : ℤ
  pub index : ℤ
  pub recipient : Bytes
  pub destination_chain_id : ℕ
  pub destination_token : Bytes

-- An error of the additional payload is dropped: its results are then zero.
abbrev pub token_payload : NativeTokenTransfer → Result (ℤ × Bytes) → Result TokenPayload
token_payload t (ok (i, destination_token)) = ok (record {
  amount = pos t.amount;
  index = i;
  recipient = drop 12 t.to;
  destination_chain_id = t.to_chain;
  destination_token = destination_token;
})
token_payload t (err e) = ok (record {
  amount = pos t.amount;
  index = pos 0;
  recipient = drop 12 t.to;
  destination_chain_id = t.to_chain;
  destination_token = [];
})
token_payload t panic = panic

-- An error of the transfer is dropped too: then `To` is nil and the slice `To[12:]` panics.
unfoldable pub decode_token_payload : Bytes → Result TokenPayload
decode_token_payload payload = elim (parse_native_token_transfer payload) [
  | ok t ↦ token_payload t (decode_additional_payload t.additional_payload)
  | err e ↦ panic
  | panic ↦ panic
]

-- A payload of fewer than 14 bytes panics.
unfoldable pub decode_index_payload : Bytes → Result (ℤ × ℕ)
decode_index_payload payload = do
  raw_index ← slice payload 4 12
  raw_destination ← slice payload 12 14
  ok (to_int64 (uint_be raw_index), uint_be raw_destination)

unfoldable pub encode_index_payload : ℤ → ℕ → Bytes
encode_index_payload i destination = m0it ++ (put_uint64 (to_uint64 i) ++ put_uint16 destination)
