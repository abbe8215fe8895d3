-- ===== src/Ntt/Transceiver.antt =====
-- types/portal/ntt/transceiver.go
use dollar.Base.{◌+◌, [], ◌∷◌, ◌++◌, if◌then◌else◌, length}
use dollar.Base.Bytes.{Bytes, bytes_eq, put_uint16, uint_be}
use dollar.Types.{Result, ok, err, malformed}
use dollar.Types.Outcome.{◌>>=◌}
use dollar.Ntt.Slice.{slice}

pub record TransceiverMessage : Type 0 where
  pub source_manager_address : Bytes
  pub recipient_manager_address : Bytes
  pub manager_payload : Bytes
  pub transceiver_payload : Bytes

abbrev pub transceiver_message_prefix : Bytes
transceiver_message_prefix = 0x99 ∷ 0x45 ∷ 0xff ∷ 0x10 ∷ []

unfoldable pub encode_transceiver_message : TransceiverMessage → Bytes
encode_transceiver_message msg =
    transceiver_message_prefix
    ++ (msg.source_manager_address
        ++ (msg.recipient_manager_address
            ++ (put_uint16 (length msg.manager_payload)
                ++ (msg.manager_payload
                    ++ (put_uint16 (length msg.transceiver_payload) ++ msg.transceiver_payload)))))

-- No length is checked: a short message panics.
unfoldable pub parse_transceiver_message : Bytes → Result TransceiverMessage
parse_transceiver_message bz = do
  prefix ← slice bz 0 4
  _ ← if bytes_eq prefix transceiver_message_prefix then ok tt else err malformed
  source ← slice bz 4 36
  recipient ← slice bz 36 68
  raw_length ← slice bz 68 70
  let manager_length = uint_be raw_length
  manager ← slice bz 70 (70 + manager_length)
  raw_length' ← slice bz (70 + manager_length) (72 + manager_length)
  let transceiver_length = uint_be raw_length'
  payload ← slice bz (72 + manager_length) (72 + manager_length + transceiver_length)
  ok (record {
    source_manager_address = source;
    recipient_manager_address = recipient;
    manager_payload = manager;
    transceiver_payload = payload;
  })
