-- ===== src/Ntt/RoundTrip.antt =====
-- The encoders of types/portal/ntt against its parsers.
use dollar.Base.{
  ℕ, ◌+◌, ◌≡◌, refl, arith, [], ◌∷◌, ◌++◌, length, take, drop, drop_zero, length-drop,
  eq-nil_of_length, inl, inr, Bool-cases, ltb,
}
use dollar.Base.Bytes.{
  Bytes, IsU16, IsU64, put_uint16, put_uint64, uint_be, bytes_eq_refl, uint_be-put_uint16,
  uint_be-put_uint64, length-put_uint16, length-put_uint64,
}
use dollar.Types.{ok}
use dollar.Ntt.Slice.{At, At-zero, At-next, length-At, take-At, slice-At, slice-At_last}
use dollar.Ntt.Manager.{ManagerMessage, encode_manager_message, parse_manager_message}
use dollar.Ntt.Transceiver.{
  TransceiverMessage, transceiver_message_prefix, encode_transceiver_message,
  parse_transceiver_message,
}
use dollar.Ntt.Transfer.{
  NativeTokenTransfer, native_token_transfer_prefix, encode_rest, encode_native_token_transfer,
  parse_native_token_transfer,
}

pub record IsManagerMessage (m : ManagerMessage) : Type 0 where
  pub id_32 : length m.id ≡ 32
  pub sender_32 : length m.sender ≡ 32
  pub payload_u16 : IsU16 (length m.payload)

-- A manager message with an id and a sender of 32 bytes and a payload whose length fits 16 bits
-- is read back from its encoding.
pub parse-encode_manager_message :
    (m : ManagerMessage)
    → IsManagerMessage m
    → parse_manager_message (encode_manager_message m) ≡ ok m
unfolding encode_manager_message parse_manager_message
parse-encode_manager_message m v =
    let n = put_uint16 (length m.payload) in
    let bz = m.id ++ (m.sender ++ (n ++ m.payload)) in
    let at₁ = At-next bz 0 32 m.id _ (At-zero bz) v.id_32 in
    let at₂ = At-next bz 32 32 m.sender _ at₁ v.sender_32 in
    let l = length-put_uint16 (length m.payload) in
    ground (
      arith,
      take-At bz 0 32 m.id _ (At-zero bz) v.id_32,
      drop_zero bz,
      take-At bz 32 32 m.sender _ at₁ v.sender_32,
      take-At bz 64 2 n m.payload at₂ l,
      At-next bz 64 2 n m.payload at₂ l,
      uint_be-put_uint16 (length m.payload) v.payload_u16,
    )

pub record IsTransceiverMessage (m : TransceiverMessage) : Type 0 where
  pub source_32 : length m.source_manager_address ≡ 32
  pub recipient_32 : length m.recipient_manager_address ≡ 32
  pub manager_u16 : IsU16 (length m.manager_payload)
  pub transceiver_u16 : IsU16 (length m.transceiver_payload)

-- A transceiver message with addresses of 32 bytes and payloads whose lengths fit 16 bits is read
-- back from its encoding; so the unchecked slices do not panic on it.
pub parse-encode_transceiver_message :
    (m : TransceiverMessage)
    → IsTransceiverMessage m
    → parse_transceiver_message (encode_transceiver_message m) ≡ ok m
unfolding encode_transceiver_message parse_transceiver_message
parse-encode_transceiver_message m v =
    let len = length m.manager_payload in
    let len' = length m.transceiver_payload in
    let n = put_uint16 len in
    let k = put_uint16 len' in
    let t = m.transceiver_payload in
    let bz = encode_transceiver_message m in
    let at₀ = At-zero bz in
    let at₁ = At-next bz 0 4 transceiver_message_prefix _ at₀ refl in
    let at₂ = At-next bz 4 32 m.source_manager_address _ at₁ v.source_32 in
    let at₃ = At-next bz 36 32 m.recipient_manager_address _ at₂ v.recipient_32 in
    let at₄ = At-next bz 68 2 n _ at₃ (length-put_uint16 len) in
    let at₅ = At-next bz 70 len m.manager_payload (k ++ t) at₄ refl in
    let at₆ : At bz (72 + len) t =
      rw (shift len) at (At-next bz (70 + len) 2 k t at₅ (length-put_uint16 len')) in
    rw (
      slice-At bz 0 4 transceiver_message_prefix _ at₀ refl,
      bytes_eq_refl transceiver_message_prefix,
      slice-At bz 4 32 m.source_manager_address _ at₁ v.source_32,
      slice-At bz 36 32 m.recipient_manager_address _ at₂ v.recipient_32,
      slice-At bz 68 2 n _ at₃ (length-put_uint16 len),
      uint_be-put_uint16 len v.manager_u16,
      slice-At bz 70 len m.manager_payload (k ++ t) at₄ refl,
      ← shift len,
      slice-At bz (70 + len) 2 k t at₅ (length-put_uint16 len'),
      uint_be-put_uint16 len' v.transceiver_u16,
      shift len,
      slice-At_last bz (72 + len) len' t at₆ refl,
    )
  where
    shift : (l : ℕ) → 70 + l + 2 ≡ 72 + l
    shift l = omega arith

pub record IsNativeTokenTransfer (t : NativeTokenTransfer) : Type 0 where
  pub amount_u64 : IsU64 t.amount
  pub source_32 : length t.source_token ≡ 32
  pub to_32 : length t.to ≡ 32
  pub chain_u16 : IsU16 t.to_chain
  pub payload_u16 : IsU16 (length t.additional_payload)

-- The fields of a transfer, at their offsets.
parse_fields :
    (bz : Bytes) (t : NativeTokenTransfer)
    → take 4 bz ≡ native_token_transfer_prefix
    → uint_be (take 8 (drop 5 bz)) ≡ t.amount
    → take 32 (drop 13 bz) ≡ t.source_token
    → take 32 (drop 45 bz) ≡ t.to
    → uint_be (take 2 (drop 77 bz)) ≡ t.to_chain
    → At bz 79 (encode_rest t.additional_payload)
    → IsU16 (length t.additional_payload)
    → parse_native_token_transfer bz ≡ ok t
unfolding parse_native_token_transfer
parse_fields bz t prefix amount source to chain at fits =
    elim (Bool-cases (ltb 0 (length t.additional_payload))) [
      | inl full ↦
          let n = put_uint16 (length t.additional_payload) in
          let at' : At bz 79 (n ++ t.additional_payload) = rw full at at in
          let l = length-put_uint16 (length t.additional_payload) in
          ground (
            arith,
            bytes_eq_refl native_token_transfer_prefix,
            take-At bz 79 2 n t.additional_payload at' l,
            At-next bz 79 2 n t.additional_payload at' l,
            length-At bz 79 2 n t.additional_payload at' l,
            uint_be-put_uint16 (length t.additional_payload) fits,
          )
      | inr empty ↦
          let nothing : drop 79 bz ≡ [] = rw empty at at.from in
          ground (
            arith,
            bytes_eq_refl native_token_transfer_prefix,
            nothing,
            length-drop 79 bz,
            at.within,
            eq-nil_of_length t.additional_payload,
          )
    ]

-- A transfer with a 64-bit amount, tokens and recipients of 32 bytes, a 16-bit chain and an
-- additional payload whose length fits 16 bits, empty or not, is read back from its encoding.
pub parse-encode_native_token_transfer :
    (t : NativeTokenTransfer)
    → IsNativeTokenTransfer t
    → parse_native_token_transfer (encode_native_token_transfer t) ≡ ok t
unfolding encode_native_token_transfer parse_native_token_transfer
parse-encode_native_token_transfer t v =
    let chain = put_uint16 t.to_chain in
    let amount = put_uint64 t.amount in
    let bz = encode_native_token_transfer t in
    let at₀ = At-zero bz in
    let at₁ = At-next bz 0 4 native_token_transfer_prefix _ at₀ refl in
    let at₂ = At-next bz 4 1 (6 ∷ []) _ at₁ refl in
    let at₃ = At-next bz 5 8 amount _ at₂ (length-put_uint64 t.amount) in
    let at₄ = At-next bz 13 32 t.source_token _ at₃ v.source_32 in
    let at₅ = At-next bz 45 32 t.to _ at₄ v.to_32 in
    let at₆ =
      At-next bz 77 2 chain (encode_rest t.additional_payload) at₅ (length-put_uint16 t.to_chain) in
    parse_fields bz t (rw drop_zero at (take-At bz 0 4 native_token_transfer_prefix _ at₀ refl))
      (rw (take-At bz 5 8 amount _ at₂ (length-put_uint64 t.amount))
        (uint_be-put_uint64 t.amount v.amount_u64))
      (take-At bz 13 32 t.source_token _ at₃ v.source_32) (take-At bz 45 32 t.to _ at₄ v.to_32)
      (rw (take-At bz 77 2 chain _ at₅ (length-put_uint16 t.to_chain))
        (uint_be-put_uint16 t.to_chain v.chain_u16))
      at₆ v.payload_u16
