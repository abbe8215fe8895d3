-- ===== src/Genesis/DollarRun.antt =====
-- genesis.go: the loops of `InitGenesis` over the principals, yields, recipients and retries.
use dollar.Base.{◌≡◌, refl, ap, some, []}
use dollar.Base.Int.{ℤ}
use dollar.Base.Bytes.{Bytes}
use dollar.Base.Key.{int_key, bytes_key, pair_key}
use dollar.Base.Map.{Map, lookup}
use dollar.Types.{ok}
use dollar.Types.Store.{World, Dollar, YieldKey}
use dollar.Types.Env.{Env}
use dollar.State.Provider.{key_string}
use dollar.State.Listing.{
  collect, get_principal, get_total_external_yield, get_yield_recipients, get_retry_amounts,
}
use dollar.Base.Map.Entries.{Distinct}
use dollar.Genesis.Record.{GenesisState}
use dollar.Genesis.Init.{
  init_dollar, read_principal, read_amount, read_recipient, put_principal, put_external_yield,
  put_recipient, put_retry_amount, set_each,
}
use dollar.Genesis.Export.{export_genesis}
use dollar.State.Dollar.{get_paused}
use dollar.Genesis.Reading.{set_each-same}
use dollar.Genesis.Listed.{SameEntries, collect-Sound, collect-Complete}
use dollar.Genesis.Keys.{EnumNames, parse-key_string}
use dollar.Genesis.DollarPart.{
  empty_dollar, SameDollar, PlainKeys, IntStrings, OwnAddresses, address_text,
  walk_principal-collect, ExportableDollar, Visited,
}

module _ {Chain Decimal : Type 0} (env : Env Chain Decimal) where
  abbrev pub with_dollar : Dollar → World Chain → World Chain
  with_dollar d w = record w { dollar = d }

  init_dollar-run :
      (g : GenesisState) (n : Map Bytes ℤ) (x : Map YieldKey ℤ) (y : Map YieldKey Bytes)
      (z : Map YieldKey ℤ) (w : World Chain)
      → ((w : World Chain)
          → w.dollar.principal ≡ []
          → set_each (read_principal env) put_principal g.principal w
            ≡ (ok tt, with_dollar (record (w.dollar) { principal = n }) w))
      → ((w : World Chain)
          → w.dollar.total_external_yield ≡ []
          → set_each (read_amount env) put_external_yield g.total_external_yield w
            ≡ (ok tt, with_dollar (record (w.dollar) { total_external_yield = x }) w))
      → ((w : World Chain)
          → w.dollar.yield_recipients ≡ []
          → set_each read_recipient put_recipient g.yield_recipients w
            ≡ (ok tt, with_dollar (record (w.dollar) { yield_recipients = y }) w))
      → ((w : World Chain)
          → w.dollar.retry_amounts ≡ []
          → set_each (read_amount env) put_retry_amount g.retry_amounts w
            ≡ (ok tt, with_dollar (record (w.dollar) { retry_amounts = z }) w))
      → init_dollar env g (with_dollar empty_dollar w) ≡ (
        ok tt,
        with_dollar
            (record {
              paused = some g.paused;
              index = some g.index;
              principal = n;
              stats = some g.stats;
              total_external_yield = x;
              yield_recipients = y;
              retry_amounts = z;
            })
            w,
      )
  unfolding init_dollar
  init_dollar-run g n x y z w principals yields recipients retries =
      let start : Dollar = record empty_dollar { paused = some g.paused; index = some g.index } in
      let then : Map YieldKey ℤ → Map YieldKey Bytes → World Chain = λ x y.
        with_dollar
          (record start {
            principal = n;
            stats = some g.stats;
            total_external_yield = x;
            yield_recipients = y;
          })
          w in
      rw
        (
          principals (with_dollar start w) refl,
          yields (then [] []) refl,
          recipients (then x []) refl,
          retries (then x y) refl,
        )
        refl

  module _ (enum_names : EnumNames env) (int_strings : IntStrings env) where
    readable_amount :
        (m : Map YieldKey ℤ)
        → PlainKeys m
        → (key : YieldKey) (v n : ℤ) → lookup key m ≡ some v
        → read_amount env (key_string env key, env.int_to_string n) ≡ ok (key, n)
    readable_amount m (d, h) (p, id) v n e =
        let (known, no_slash) = h (p, id) v e in
        rw (parse-key_string env enum_names p id known no_slash, int_strings n) refl

    readable_recipient :
        (m : Map YieldKey Bytes)
        → PlainKeys m
        → (key : YieldKey) (v r : Bytes) → lookup key m ≡ some v
        → read_recipient (key_string env key, r) ≡ ok (key, r)
    readable_recipient m (d, h) (p, id) v r e =
        let (known, no_slash) = h (p, id) v e in
        rw (parse-key_string env enum_names p id known no_slash) refl

    readable_principal :
        (m : Map Bytes ℤ)
        → OwnAddresses env m
        → (account : Bytes) (v n : ℤ) → lookup account m ≡ some v
        → read_principal env (address_text env account, env.int_to_string n) ≡ ok (account, n)
    readable_principal m h account v n e =
        let (text, f, g) = h account v e in rw (f, g, int_strings n) refl

    module _ (w : World Chain) where
      read_principals :
          (es : Map Bytes Bytes)
          → Distinct w.dollar.principal
          → OwnAddresses env w.dollar.principal
          → SameEntries es (get_principal env w).0
          → (n : Map Bytes ℤ) × ((w' : World Chain)
              → w'.dollar.principal ≡ []
              → set_each (read_principal env) put_principal es w'
                ≡ (ok tt, with_dollar (record (w'.dollar) { principal = n }) w'))
            × ((a : Bytes) → lookup a n ≡ lookup a w.dollar.principal)
      unfolding get_principal
      read_principals es d own same =
          let m = w.dollar.principal in
          let readable = readable_principal m own in
          let entries : SameEntries es (collect (address_text env) env.int_to_string m []) =
            rw (walk_principal-collect env m [] d own) at same in
          set_each-same (read_principal env) (λ w. w.dollar.principal)
            (λ n w. with_dollar (record (w.dollar) { principal = n }) w) (λ n w. refl)
            (λ n n' w. refl) (λ w. refl) m es
            (collect-Sound (address_text env) env.int_to_string (read_principal env) m d readable es
              entries)
            (collect-Complete (address_text env) env.int_to_string (read_principal env) m d readable
              es entries)

      read_yields :
          (es : Map Bytes Bytes)
          → PlainKeys w.dollar.total_external_yield
          → SameEntries es (get_total_external_yield env w)
          → (n : Map YieldKey ℤ) × ((w' : World Chain)
              → w'.dollar.total_external_yield ≡ []
              → set_each (read_amount env) put_external_yield es w'
                ≡ (ok tt, with_dollar (record (w'.dollar) { total_external_yield = n }) w'))
            × ((key : YieldKey) → lookup key n ≡ lookup key w.dollar.total_external_yield)
      unfolding get_total_external_yield
      read_yields es plain_keys entries =
          let m = w.dollar.total_external_yield in
          let readable = readable_amount m plain_keys in
          set_each-same (read_amount env) (λ w. w.dollar.total_external_yield)
            (λ n w. with_dollar (record (w.dollar) { total_external_yield = n }) w) (λ n w. refl)
            (λ n n' w. refl) (λ w. refl) m es
            (collect-Sound (key_string env) env.int_to_string (read_amount env) m plain_keys.0
              readable es entries)
            (collect-Complete (key_string env) env.int_to_string (read_amount env) m plain_keys.0
              readable es entries)

      read_recipients :
          (es : Map Bytes Bytes)
          → PlainKeys w.dollar.yield_recipients
          → SameEntries es (get_yield_recipients env w)
          → (n : Map YieldKey Bytes) × ((w' : World Chain)
              → w'.dollar.yield_recipients ≡ []
              → set_each read_recipient put_recipient es w'
                ≡ (ok tt, with_dollar (record (w'.dollar) { yield_recipients = n }) w'))
            × ((key : YieldKey) → lookup key n ≡ lookup key w.dollar.yield_recipients)
      unfolding get_yield_recipients
      read_recipients es plain_keys entries =
          let m = w.dollar.yield_recipients in
          let readable = readable_recipient m plain_keys in
          set_each-same read_recipient (λ w. w.dollar.yield_recipients)
            (λ n w. with_dollar (record (w.dollar) { yield_recipients = n }) w) (λ n w. refl)
            (λ n n' w. refl) (λ w. refl) m es
            (collect-Sound (key_string env) (λ r. r) read_recipient m plain_keys.0 readable es
              entries)
            (collect-Complete (key_string env) (λ r. r) read_recipient m plain_keys.0 readable es
              entries)

      read_retries :
          (es : Map Bytes Bytes)
          → PlainKeys w.dollar.retry_amounts
          → SameEntries es (get_retry_amounts env w)
          → (n : Map YieldKey ℤ) × ((w' : World Chain)
              → w'.dollar.retry_amounts ≡ []
              → set_each (read_amount env) put_retry_amount es w'
                ≡ (ok tt, with_dollar (record (w'.dollar) { retry_amounts = n }) w'))
            × ((key : YieldKey) → lookup key n ≡ lookup key w.dollar.retry_amounts)
      unfolding get_retry_amounts
      read_retries es plain_keys entries =
          let m = w.dollar.retry_amounts in
          let readable = readable_amount m plain_keys in
          set_each-same (read_amount env) (λ w. w.dollar.retry_amounts)
            (λ n w. with_dollar (record (w.dollar) { retry_amounts = n }) w) (λ n w. refl)
            (λ n n' w. refl) (λ w. refl) m es
            (collect-Sound (key_string env) env.int_to_string (read_amount env) m plain_keys.0
              readable es entries)
            (collect-Complete (key_string env) env.int_to_string (read_amount env) m plain_keys.0
              readable es entries)

    -- The export of the dollar's part, its Go maps visited in any order, read by a chain whose
    -- dollar is empty.
    pub init_dollar-export_genesis :
        (g : GenesisState) (w w₀ : World Chain)
        → ExportableDollar env w.dollar
        → Visited g (export_genesis env w)
        → (d : Dollar) × (init_dollar env g (with_dollar empty_dollar w₀)
            ≡ (ok tt, with_dollar d w₀))
          × SameDollar w.dollar d
    unfolding export_genesis get_paused
    init_dollar-export_genesis g w w₀ exportable visited =
        let (n, principals, same_principal) =
          read_principals w g.principal exportable.distinct_principal exportable.own_addresses
            visited.of_principal in
        let (x, yields, same_yield) =
          read_yields w g.total_external_yield exportable.plain_yields visited.of_yields in
        let (y, recipients, same_recipients) =
          read_recipients w g.yield_recipients exportable.plain_recipients visited.of_recipients in
        let (z, retries, same_retries) =
          read_retries w g.retry_amounts exportable.plain_retries visited.of_retries in
        (
          _,
          init_dollar-run g n x y z w₀ principals yields recipients retries,
          record {
            same_paused = ap some visited.of_paused;
            same_index = ap some visited.of_index;
            same_stats = ap some visited.of_stats;
            same_principal = same_principal;
            same_yield = same_yield;
            same_recipients = same_recipients;
            same_retries = same_retries;
          },
        )
