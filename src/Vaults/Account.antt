-- ===== src/Vaults/Account.antt =====
-- keeper/msg_server_vaults.go: the names of the module accounts that hold the positions, and the
-- vault types that exist.
use dollar.Base.{
  ℕ, zero, suc, ◌+◌, ◌/◌, ◌%◌, Bool, ◌||◌, ◌&&◌, [], ◌∷◌, ◌++◌, map, ◌==◌, leb, if◌then◌else◌,
}
use dollar.Base.Int.{ℤ, pos, negsuc, eqb_ℤ}
use dollar.Base.Bytes.{Bytes, codes}
use dollar.State.Names.{staked_vault_name}
use dollar.State.Vaults.{staked, flexible}

-- Go's `%d`, from its library; the 20 rounds are enough for 64 bits.
unfoldable pub digits : ℕ → ℕ → Bytes → Bytes
digits zero n acc = acc
digits (suc rounds) n acc =
    let acc' = (48 + n % 10) ∷ acc in
    let rest = digits rounds (n / 10) acc' in if n / 10 == 0 then acc' else rest

unfoldable pub itoa : ℤ → Bytes
unfolding digits
itoa (pos n) = digits 20 n []
itoa (negsuc n) = b'-' ∷ digits 20 (n + 1) []

-- Go's `strings.ToLower`, from its library, of an ASCII text.
unfoldable pub to_lower : Bytes → Bytes
to_lower = map (λ c. if leb b'A' c && leb c b'Z' then c + 32 else c)

-- An account for each flexible position, and one for the staked vault.
unfoldable pub to_user_vault_position_module_account : Bytes → ℤ → ℤ → Bytes
unfolding itoa to_lower
to_user_vault_position_module_account address vault timestamp =
    if eqb_ℤ vault flexible
    then codes "dollar/vaults/flexible/" ++ (to_lower address ++ (b'/' ∷ itoa timestamp))
    else staked_vault_name

abbrev pub vault_exists : ℤ → Bool
vault_exists vault = eqb_ℤ vault staked || eqb_ℤ vault flexible
