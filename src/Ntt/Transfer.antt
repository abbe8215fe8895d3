-- ===== src/Ntt/Transfer.antt =====
-- types/portal/ntt/ntt.go
use dollar.Base.{ℕ, [], ◌∷◌, ◌++◌, ltb, ◌==◌, if◌then◌else◌, length, take, drop}
use dollar.Base.Bytes.{Bytes, bytes_eq, put_uint16, put_uint64, uint_be}
use dollar.Types.{Result, ok, err, malformed}

pub record NativeTokenTransfer : Type 0 where
  pub amount : ℕ
  pub source_token : Bytes
  pub to : Bytes
  pub to_chain : ℕ
  pub additional_payload : Bytes

abbrev pub native_token_transfer_prefix : Bytes
native_token_transfer_prefix = 0x99 ∷ 0x4e ∷ 0x54 ∷ 0x54 ∷ []

-- Only a payload that is not empty is written, behind its length.
abbrev pub encode_rest : Bytes → Bytes
encode_rest payload = if ltb 0 (length payload) then put_uint16 (length payload) ++ payload else []

unfoldable pub encode_native_token_transfer : NativeTokenTransfer → Bytes
encode_native_token_transfer ntt =
    native_token_transfer_prefix
    ++ ((6 ∷ [])
        ++ (put_uint64 ntt.amount
            ++ (ntt.source_token
                ++ (ntt.to ++ (put_uint16 ntt.to_chain ++ encode_rest ntt.additional_payload)))))

-- The fixed fields; the number of decimals, at offset 4, is not read.
abbrev pub with_payload : Bytes → Bytes → NativeTokenTransfer
with_payload bz payload = record {
  amount = uint_be (take 8 (drop 5 bz));
  source_token = take 32 (drop 13 bz);
  to = take 32 (drop 45 bz);
  to_chain = uint_be (take 2 (drop 77 bz));
  additional_payload = payload;
}

unfoldable pub parse_native_token_transfer : Bytes → Result NativeTokenTransfer
parse_native_token_transfer bz =
    if ltb (length bz) 79
    then err malformed
    else if bytes_eq (take 4 bz) native_token_transfer_prefix
    then if ltb 79 (length bz)
      then if ltb (length bz) 81
        then err malformed
        else if length (drop 81 bz) == uint_be (take 2 (drop 79 bz))
        then ok (with_payload bz (drop 81 bz))
        else err malformed
      else ok (with_payload bz [])
    else err malformed
