-- ===== src/Genesis/RoundTrip.antt =====
-- genesis.go: `ExportGenesis` followed by `InitGenesis`.
use dollar.Base.{◌≡◌, refl, [], ap, ◌∙◌}
use dollar.Base.Map.Entries.{Distinct}
use dollar.Base.Key.{nat_key, bytes_key, pair_key}
use dollar.Types.{ok, >>_then, ◌>>◌}
use dollar.Types.Store.{World}
use dollar.Types.Env.{Env}
use dollar.Genesis.Record.{GenesisState, PortalGenesis, VaultsGenesis}
use dollar.Genesis.Init.{init_genesis, init_dollar, init_portal, init_vaults}
use dollar.Genesis.Export.{export_genesis}
use dollar.Genesis.Keys.{EnumNames}
use dollar.Genesis.DollarPart.{IntStrings, ExportableDollar, Visited, SameDollar, empty_dollar}
use dollar.Genesis.DollarRun.{init_dollar-export_genesis}
use dollar.Genesis.PortalPart.{SamePortal, empty_portal, init_portal-export_portal}
use dollar.Genesis.VaultsPart.{OwnKeys, SameVaults, empty_vaults, init_vaults-export_vaults}

-- The start of a chain.
abbrev pub empty_world : {Chain : Type 0} → Chain → World Chain
empty_world c = record {
  dollar = empty_dollar;
  portal = empty_portal;
  vaults = empty_vaults;
  chain = c;
  events = [];
}

module _ {Chain Decimal : Type 0} (env : Env Chain Decimal) where
  -- What the keeper keeps of its state: keys are unique, texts of keys can be read back, and
  -- positions and rewards stand under their own times and indices.
  pub record Exportable (w : World Chain) : Type 0 where
    pub exportable_dollar : ExportableDollar env w.dollar
    pub distinct_peers : Distinct w.portal.peers
    pub distinct_paths : Distinct w.portal.bridging_paths
    pub own_keys : OwnKeys w.vaults

  -- The same state, and nothing else changed.
  pub record SameState (w w' : World Chain) (c : Chain) : Type 0 where
    pub same_dollar : SameDollar w.dollar w'.dollar
    pub same_portal : SamePortal w.portal w'.portal
    pub same_vaults : SameVaults w.vaults w'.vaults
    pub same_chain : w'.chain ≡ c
    pub no_events : w'.events ≡ []

  -- A state whose keys are unique, whose principals' addresses are read as they are printed, whose
  -- yields, recipients and amounts to retry are of known providers with identifiers without a slash,
  -- and whose positions and rewards stand under their own times and indices, where integers and
  -- enum values are read as they are printed: its export, with the Go maps visited in any order,
  -- starts an empty chain without a panic, and the new state has the same items, the same entries in
  -- every map, and the same supported bridging paths; the items that the old state lacks have Go's
  -- zero values in the new one.
  pub init_genesis-export_genesis :
      (g : GenesisState) (w : World Chain) (c : Chain)
      → EnumNames env
      → IntStrings env
      → Exportable w
      → Visited g (export_genesis env w)
      → (w' : World Chain) × (init_genesis env g (empty_world c) ≡ (ok tt, w')) × SameState w w' c
  unfolding init_genesis export_genesis
  init_genesis-export_genesis g w c enum_names int_strings exportable visited =
      let w₀ = empty_world c in
      let (d, done, same_dollar) =
        init_dollar-export_genesis env enum_names int_strings g w w₀ exportable.exportable_dollar
          visited in
      let (p, done', same_portal) =
        init_portal-export_portal w (record w₀ { dollar = d }) exportable.distinct_peers
          exportable.distinct_paths g.portal.peers visited.of_peers in
      let (v, done'', same_vaults) =
        init_vaults-export_vaults w (record w₀ { dollar = d; portal = p }) exportable.own_keys in
      let w₁ : World Chain = record w₀ { dollar = d } in
      let w₂ : World Chain = record w₀ { dollar = d; portal = p } in
      let portal =
        ap (λ (x : PortalGenesis). record x { peers = g.portal.peers }) visited.of_portal in
      (
        record w₀ { dollar = d; portal = p; vaults = v },
        >>_then (init_dollar env g) (λ w. (init_portal g.portal >> init_vaults g.vaults) w) w₀ w₁ _
            done
            (>>_then (init_portal g.portal) (init_vaults g.vaults) w₁ w₂ _
              (ap (λ (x : PortalGenesis). init_portal x w₁) portal ∙ done')
              (ap (λ (x : VaultsGenesis). init_vaults x w₂) visited.of_vaults ∙ done'')),
        record {
          same_dollar = same_dollar;
          same_portal = same_portal;
          same_vaults = same_vaults;
          same_chain = refl;
          no_events = refl;
        },
      )
