-- ===== src/Portal/Constants.antt =====
-- types/portal/keys.go, whose variables `NewKeeper` of keeper/keeper.go fills in, and the padding
-- of the portal's fields.
use dollar.Base.{ℕ, ◌-◌, none, some, [], ◌++◌, ltb, leb, if◌then◌else◌, length, take, replicate}
use dollar.Base.Int.{ℤ, pos, negsuc}
use dollar.Base.Bytes.{Bytes, codes}
use dollar.Types.{Result, ok, panic}
use dollar.Types.Env.{Env}

-- `copy(dst[32-len(bz):], bz)` into 32 zero bytes; a longer `bz` panics.
unfoldable pub pad_left : Bytes → Result Bytes
pad_left bz = if leb (length bz) 32 then ok (replicate (32 - length bz) 0 ++ bz) else panic

-- `copy(dst[12:], bz)` into 32 zero bytes.
unfoldable pub pad_address : Bytes → Bytes
pad_address bz = replicate 12 0 ++ (take 20 bz ++ replicate (20 - length bz) 0)

module _ {Chain Decimal : Type 0} (env : Env Chain Decimal) where
  unfoldable pub padded_manager_address : Bytes
  unfolding pad_address
  padded_manager_address = pad_address (env.new_module_address (codes "dollar/portal/manager"))

  unfoldable pub transceiver_address : Bytes
  transceiver_address =
      elim (env.bytes_to_string (env.new_module_address (codes "dollar/portal/transceiver"))) [
        | none ↦ []
        | some address ↦ address
      ]

  -- A denomination of at most 32 bytes; with a longer one there is no keeper.
  unfoldable pub raw_token : Bytes
  raw_token = replicate (32 - length env.denom) 0 ++ env.denom

-- `Uint64` and `Int64` of `math.Int` panic out of range.
unfoldable pub uint64_of : ℤ → Result ℕ
uint64_of (pos n) = if ltb n 18_446_744_073_709_551_616 then ok n else panic
uint64_of (negsuc n) = panic

unfoldable pub int64_of : ℤ → Result ℤ
int64_of (pos n) = if ltb n 9_223_372_036_854_775_808 then ok (pos n) else panic
int64_of (negsuc n) = if ltb n 9_223_372_036_854_775_808 then ok (negsuc n) else panic
