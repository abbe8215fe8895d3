-- ===== src/Vaults/Names.antt =====
-- The names of the module accounts of the flexible positions (keeper/msg_server_vaults.go,
-- `ToUserVaultPositionModuleAccount`).
use dollar.Base.{◌≡◌, refl, ap, true, [], ◌∷◌, ◌++◌, arith, drop}
use dollar.Base.Int.{ℤ}
use dollar.Base.Bytes.{Bytes}
use dollar.State.Provider.{plain, slash}
use dollar.State.Vaults.{flexible}
use dollar.Vaults.Account.{to_lower, itoa, to_user_vault_position_module_account}
use dollar.Vaults.Digits.{IsInt64, itoa-injective}

-- Texts without a slash are told apart from what follows a slash.
plain-append :
    (a a' b b' : Bytes)
    → plain a ≡ true
    → plain a' ≡ true
    → a ++ (slash ∷ b) ≡ a' ++ (slash ∷ b')
    → (a ≡ a') × (b ≡ b')
plain-append [] [] b b' h k e = ground arith
plain-append [] (c ∷ a') b b' h k e = ground arith
plain-append (c ∷ a) [] b b' h k e = ground arith
plain-append (c ∷ a) (c' ∷ a') b b' h k e = ground (arith, plain-append a a' b b')

to_lower-plain : (a : Bytes) → plain a ≡ true → plain (to_lower a) ≡ true
unfolding to_lower
to_lower-plain [] h = refl
to_lower-plain (c ∷ a) h = ground (arith, to_lower-plain a)

-- Flexible positions of addresses without a slash, at times of 64 bits, have the same module
-- account only if the addresses are the same but for upper and lower case, and the times are the
-- same.
pub to_user_vault_position_module_account-injective :
    (a a' : Bytes) (t t' : ℤ)
    → plain a ≡ true
    → plain a' ≡ true
    → IsInt64 t
    → IsInt64 t'
    → to_user_vault_position_module_account a flexible t
      ≡ to_user_vault_position_module_account a' flexible t'
    → (to_lower a ≡ to_lower a') × (t ≡ t')
unfolding to_user_vault_position_module_account drop
to_user_vault_position_module_account-injective a a' t t' h h' k k' e =
    let (same, digits) =
      plain-append (to_lower a) (to_lower a') (itoa t) (itoa t') (to_lower-plain a h)
        (to_lower-plain a' h') (ap (drop 23) e) in
    (same, itoa-injective t t' k k' digits)
