-- ===== src/State/Provider.antt =====
-- types/v2/provider.go, and the names of the providers (types/v2/dollar.pb.go).
use dollar.Base.{ℕ, Bool, true, not, ◌&&◌, List, [], ◌∷◌, ◌++◌, ◌==◌, if◌then◌else◌}
use dollar.Base.Int.{ℤ}
use dollar.Base.Bytes.{Bytes, codes}
use dollar.Base.Key.{bytes_key}
use dollar.Base.Map.{Map, lookup}
use dollar.Types.{Result, ok, panic}
use dollar.Types.Outcome.{◌>>=◌}
use dollar.Types.Store.{YieldKey}
use dollar.Types.Env.{Env}
use dollar.State.Dollar.{ibc, hyperlane, or_zero}

abbrev pub provider_name : Map ℤ Bytes
provider_name = (ibc, codes "IBC") ∷ (hyperlane, codes "HYPERLANE") ∷ []

abbrev pub provider_value : Map Bytes ℤ
provider_value = (codes "IBC", ibc) ∷ (codes "HYPERLANE", hyperlane) ∷ []

abbrev pub slash : ℕ
slash = b'/'

-- A text without a slash.
abbrev pub plain : Bytes → Bool
plain [] = true
plain (c ∷ s) = not (c == slash) && plain s

-- `strings.Split` at a separator of one byte: the first part, and the parts behind it.
unfoldable pub split : ℕ → Bytes → Bytes × List Bytes
split separator [] = ([], [])
split separator (c ∷ s) =
    let (part, parts) = split separator s in
    if c == separator then ([], part ∷ parts) else (c ∷ part, parts)

-- An index out of range panics.
abbrev pub second : List Bytes → Result Bytes
second [] = panic
second (part ∷ parts) = ok part

-- The zero value, which is IBC's, for a name that is none of a provider; what stands behind a
-- second slash is dropped.
unfoldable pub parse_yield_recipient_key : Bytes → Result YieldKey
unfolding split lookup
parse_yield_recipient_key key = do
  let split_key = split slash key
  identifier ← second split_key.1
  ok (or_zero (lookup split_key.0 provider_value), identifier)

module _ {Chain Decimal : Type 0} (env : Env Chain Decimal) where
  -- `Provider.String`
  abbrev pub provider_string : ℤ → Bytes
  provider_string provider = env.enum_name provider_name provider

  -- `fmt.Sprintf("%s/%s", provider, identifier)`
  abbrev pub key_string : YieldKey → Bytes
  key_string (provider, identifier) = provider_string provider ++ (slash ∷ identifier)
