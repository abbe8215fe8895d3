-- ===== src/Ntt/Manager.antt =====
-- types/portal/ntt/manager.go
use dollar.Base.{ℕ, ◌++◌, ltb, ◌==◌, if◌then◌else◌, length, take, drop}
use dollar.Base.Bytes.{Bytes, put_uint16, uint_be}
use dollar.Types.{Result, ok, err, malformed}

pub record ManagerMessage : Type 0 where
  pub id : Bytes
  pub sender : Bytes
  pub payload : Bytes

-- `uint16(len(payload))` keeps the low 16 bits, as `put_uint16` does.
unfoldable pub encode_manager_message : ManagerMessage → Bytes
encode_manager_message msg =
    msg.id ++ (msg.sender ++ (put_uint16 (length msg.payload) ++ msg.payload))

unfoldable pub parse_manager_message : Bytes → Result ManagerMessage
parse_manager_message bz =
    if ltb (length bz) 66
    then err malformed
    else let payload = drop 66 bz in
      let payload_length = uint_be (take 2 (drop 64 bz)) in
      if length payload == payload_length
      then ok (record { id = take 32 bz; sender = take 32 (drop 32 bz); payload = payload })
      else err malformed

-- The hash `crypto.Keccak256` is a parameter.
unfoldable pub manager_message_digest : (Bytes → Bytes) → ℕ → ManagerMessage → Bytes
manager_message_digest keccak256 source_chain_id msg =
    keccak256 (put_uint16 source_chain_id ++ encode_manager_message msg)
