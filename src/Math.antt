-- ===== src/Math.antt =====
-- keeper/math.go: principal and present amounts under the index, which has 12 decimals.
pub mod Rounding
use dollar.Base.{ℕ, suc, ◌^◌, if◌then◌else◌}
use dollar.Base.Int.{ℤ, pos, ◌+ℤ◌, ◌-ℤ◌, ◌*ℤ◌, quo, is_zero}
use dollar.Types.{Result, ok, panic}

-- `1e12`
abbrev pub scale : ℤ
scale = pos 1_000_000_000_000

-- `QuoRaw`: a division by zero panics.
unfoldable pub quo_raw : ℤ → ℤ → Result ℤ
quo_raw a b = if is_zero b then panic else ok (quo a b)

unfoldable pub get_principal_amount_rounded_up : ℤ → ℤ → Result ℤ
get_principal_amount_rounded_up present_amount index =
    quo_raw (present_amount *ℤ scale +ℤ index -ℤ pos 1) index

unfoldable pub get_principal_amount_rounded_down : ℤ → ℤ → Result ℤ
get_principal_amount_rounded_down present_amount index = quo_raw (present_amount *ℤ scale) index

unfoldable pub get_present_amount : ℤ → ℤ → Result ℤ
get_present_amount principal_amount index = quo_raw (principal_amount *ℤ index) scale
