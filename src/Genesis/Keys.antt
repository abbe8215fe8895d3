-- ===== src/Genesis/Keys.antt =====
-- The texts of providers and identifiers that `ExportGenesis` writes, read by
-- `ParseYieldRecipientKey` (types/v2/provider.go).
use dollar.Base.{◌≡◌, ◌⊎◌, refl, true, some, [], ◌∷◌, inl, inr, arith}
use dollar.Base.Int.{ℤ}
use dollar.Base.Bytes.{Bytes, bytes_eq, codes}
use dollar.Base.Key.{int_key}
use dollar.Base.Map.{lookup}
use dollar.Types.{ok}
use dollar.Types.Env.{Env}
use dollar.State.Dollar.{ibc, hyperlane}
use dollar.State.Provider.{
  split, parse_yield_recipient_key, key_string, provider_name, slash, plain,
}

abbrev pub KnownProvider : ℤ → Type 0
KnownProvider p = (p ≡ ibc) ⊎ (p ≡ hyperlane)

split-plain : (s : Bytes) → plain s ≡ true → split slash s ≡ (s, [])
unfolding split
split-plain [] h = refl
split-plain (c ∷ s) h = ground (arith, split-plain s)

-- The name of an enum value that has one is its name.
abbrev pub EnumNames : {Chain Decimal : Type 0} → Env Chain Decimal → Type 0
EnumNames env =
    (p : ℤ) (name : Bytes)
    → lookup p provider_name ≡ some name
    → env.enum_name provider_name p ≡ name

module _ {Chain Decimal : Type 0} (env : Env Chain Decimal) (enum_names : EnumNames env) where
  pub parse-key_string :
      (p : ℤ) (identifier : Bytes)
      → KnownProvider p
      → plain identifier ≡ true
      → parse_yield_recipient_key (key_string env (p, identifier)) ≡ ok (p, identifier)
  unfolding parse_yield_recipient_key lookup bytes_eq
  parse-key_string p identifier (inl e) h =
      rw (e, enum_names ibc (codes "IBC") refl, split-plain identifier h) refl
  parse-key_string p identifier (inr e) h =
      rw (e, enum_names hyperlane (codes "HYPERLANE") refl, split-plain identifier h) refl
