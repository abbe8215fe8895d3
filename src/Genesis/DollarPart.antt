-- ===== src/Genesis/DollarPart.antt =====
-- genesis.go: the dollar's part of the export, imported again.
use dollar.Base.{◌≡◌, refl, true, some, none, [], ◌∷◌, Option}
use dollar.Base.Int.{ℤ}
use dollar.Base.Bytes.{Bytes}
use dollar.Base.Key.{int_key, bytes_key, pair_key}
use dollar.Base.Map.{Map, lookup, insert}
use dollar.Base.Map.Entries.{Distinct}
use dollar.Types.{ok}
use dollar.Types.Store.{Dollar, YieldKey}
use dollar.Types.Env.{Env}
use dollar.State.Dollar.{or_false, or_zero}
use dollar.State.Provider.{plain}
use dollar.State.Listing.{collect, walk_principal}
use dollar.Genesis.Record.{GenesisState, no_stats}
use dollar.Genesis.Export.{or_value}
use dollar.Genesis.Collect.{lookup-cons_rest, lookup-cons_self}
use dollar.Genesis.Listed.{SameEntries}
use dollar.Genesis.Keys.{KnownProvider}

abbrev pub empty_dollar : Dollar
empty_dollar = record {
  paused = none;
  index = none;
  principal = [];
  stats = none;
  total_external_yield = [];
  yield_recipients = [];
  retry_amounts = [];
}

-- The same pause, index, statistics, principals, yields of other chains, recipients and amounts to
-- retry.
pub record SameDollar (d d' : Dollar) : Type 0 where
  pub same_paused : d'.paused ≡ some (or_false d.paused)
  pub same_index : d'.index ≡ some (or_zero d.index)
  pub same_stats : d'.stats ≡ some (or_value no_stats d.stats)
  pub same_principal : (a : Bytes) → lookup a d'.principal ≡ lookup a d.principal
  pub same_yield :
      (key : YieldKey) → lookup key d'.total_external_yield ≡ lookup key d.total_external_yield
  pub same_recipients :
      (key : YieldKey) → lookup key d'.yield_recipients ≡ lookup key d.yield_recipients
  pub same_retries : (key : YieldKey) → lookup key d'.retry_amounts ≡ lookup key d.retry_amounts

-- Keys are unique, their providers are known and their identifiers have no slash.
abbrev pub PlainKeys : {V : Type 0} → Map YieldKey V → Type 0
PlainKeys {V} m =
    Distinct m
    × ((key : YieldKey) (v : V)
        → lookup key m ≡ some v
        → KnownProvider key.0 × (plain key.1 ≡ true))

-- The text of an address, where it has one.
abbrev pub text_or_nil : Option Bytes → Bytes
text_or_nil none = []
text_or_nil (some s) = s

module _ {Chain Decimal : Type 0} (env : Env Chain Decimal) where
  -- Integers are read as they are printed.
  abbrev pub IntStrings : Type 0
  IntStrings = (n : ℤ) → env.int_from_string (env.int_to_string n) ≡ some n

  -- The addresses of the principals are read as they are printed.
  abbrev pub OwnAddresses : Map Bytes ℤ → Type 0
  OwnAddresses m =
      (account : Bytes) (n : ℤ)
      → lookup account m ≡ some n
      → (text : Bytes) × (env.bytes_to_string account ≡ some text)
        × (env.string_to_bytes text ≡ some account)

  abbrev pub address_text : Bytes → Bytes
  address_text account = text_or_nil (env.bytes_to_string account)

  pub walk_principal-collect :
      (m : Map Bytes ℤ) (acc : Map Bytes Bytes)
      → Distinct m
      → OwnAddresses m
      → walk_principal env m acc ≡ (collect address_text env.int_to_string m acc, ok tt)
  unfolding walk_principal collect
  walk_principal-collect [] acc d h = refl
  walk_principal-collect ((k, v) ∷ m) acc (n, d) h =
      let (text, e, f) = h k v (lookup-cons_self k v m) in
      rw (e, walk_principal)
        (walk_principal-collect m (insert text (env.int_to_string v) acc) d
          (λ j w l. h j w (lookup-cons_rest k j v w m n l)))

  -- Principals of addresses that have a text, and plain keys for the rest.
  pub record ExportableDollar (d : Dollar) : Type 0 where
    pub distinct_principal : Distinct d.principal
    pub own_addresses : OwnAddresses d.principal
    pub plain_yields : PlainKeys d.total_external_yield
    pub plain_recipients : PlainKeys d.yield_recipients
    pub plain_retries : PlainKeys d.retry_amounts

-- The genesis state as it is visited: its Go maps have the same entries, in any order, and the rest
-- is the same.
pub record Visited (g e : GenesisState) : Type 0 where
  pub of_portal : record (g.portal) { peers = e.portal.peers } ≡ e.portal
  pub of_peers : SameEntries g.portal.peers e.portal.peers
  pub of_vaults : g.vaults ≡ e.vaults
  pub of_paused : g.paused ≡ e.paused
  pub of_index : g.index ≡ e.index
  pub of_principal : SameEntries g.principal e.principal
  pub of_stats : g.stats ≡ e.stats
  pub of_yields : SameEntries g.total_external_yield e.total_external_yield
  pub of_recipients : SameEntries g.yield_recipients e.yield_recipients
  pub of_retries : SameEntries g.retry_amounts e.retry_amounts
