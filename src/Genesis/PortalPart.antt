-- ===== src/Genesis/PortalPart.antt =====
-- genesis.go: the portal's part of the export, imported again.
use dollar.Base.{ℕ, ◌≡◌, ◌↔◌, refl, ap, Bool, true, false, some, none, List, [], ◌∷◌, map, arith}
use dollar.Base.Bytes.{Bytes}
use dollar.Base.Key.{Key, nat_key, bytes_key, pair_key}
use dollar.Base.Map.{Map, lookup}
use dollar.Base.Map.Entries.{Distinct}
use dollar.Types.{ok}
use dollar.Types.Store.{World, Portal, Peer}
use dollar.State.Dollar.{or_false}
use dollar.State.Portal.{get_portal_bridging_paths, get_portal_paused}
use dollar.Genesis.Export.{export_portal, or_value}
use dollar.State.Listing.{get_portal_peers}
use dollar.Genesis.Record.{PortalGenesis}
use dollar.Genesis.Init.{init_portal, read_path, put_peer, put_path, set_each}
use dollar.Genesis.Reading.{set_each-same}
use dollar.Genesis.Listed.{SameEntries, collect-Sound, collect-Complete, map-Sound, map-Complete}

module _ {K : Type 0} ⦃key : Key K⦄ where
  -- The supported paths.
  abbrev pub supported : Map K Bool → Map K Bool
  supported [] = []
  supported ((path, true) ∷ m) = (path, true) ∷ supported m
  supported ((path, false) ∷ m) = supported m

  supported-none :
      (path : K) (m : Map K Bool) → lookup path m ≡ none → lookup path (supported m) ≡ none
  unfolding lookup
  supported-none path [] h = refl
  supported-none path ((q, true) ∷ m) h = ground (arith, key.beq_iff q path, supported-none path m)
  supported-none path ((q, false) ∷ m) h = ground (arith, key.beq_iff q path, supported-none path m)

  supported-Distinct : (m : Map K Bool) → Distinct m → Distinct (supported m)
  supported-Distinct [] d = tt
  supported-Distinct ((q, true) ∷ m) (n, d) = (supported-none q m n, supported-Distinct m d)
  supported-Distinct ((q, false) ∷ m) (n, d) = supported-Distinct m d

  supported-true :
      (path : K) (b : Bool) (m : Map K Bool) → lookup path (supported m) ≡ some b → b ≡ true
  unfolding lookup
  supported-true path b [] h = cc
  supported-true path b ((q, true) ∷ m) h = ground (arith, supported-true path b m)
  supported-true path b ((q, false) ∷ m) h = supported-true path b m h

  lookup-supported :
      (path : K) (m : Map K Bool)
      → Distinct m
      → (lookup path (supported m) ≡ some true) ↔ (lookup path m ≡ some true)
  unfolding lookup
  lookup-supported path [] d = ground arith
  lookup-supported path ((q, true) ∷ m) (n, d) = ground (arith, lookup-supported path m d)
  lookup-supported path ((q, false) ∷ m) (n, d) =
      let missing = supported-none q m n in
      ground (arith, key.beq_iff q path, lookup-supported path m d)

get_portal_bridging_paths-map :
    (m : Map (ℕ × Bytes) Bool) → get_portal_bridging_paths m ≡ map (λ e. e.0) (supported m)
unfolding get_portal_bridging_paths
get_portal_bridging_paths-map [] = refl
get_portal_bridging_paths-map ((path, true) ∷ m) =
    ap (λ (t : List (ℕ × Bytes)). path ∷ t) (get_portal_bridging_paths-map m)
get_portal_bridging_paths-map ((path, false) ∷ m) = get_portal_bridging_paths-map m

-- The same owner, pause, peers and nonce, and the same supported bridging paths.
pub record SamePortal (p p' : Portal) : Type 0 where
  pub same_owners : p'.owner ≡ some (or_value [] p.owner)
  pub same_paused : p'.paused ≡ some (or_false p.paused)
  pub same_peers : (chain : ℕ) → lookup chain p'.peers ≡ lookup chain p.peers
  pub same_paths :
      (path : ℕ × Bytes)
      → (lookup path p'.bridging_paths ≡ some true) ↔ (lookup path p.bridging_paths ≡ some true)
  pub same_nonce : p'.nonce ≡ some (or_value 0 p.nonce)

abbrev pub empty_portal : Portal
empty_portal = record { owner = none; paused = none; peers = []; bridging_paths = []; nonce = none }

module _ {Chain : Type 0} where
  -- The portal of the world.
  abbrev pub with_portal : Portal → World Chain → World Chain
  with_portal p w = record w { portal = p }

  init_portal-run :
      (g : PortalGenesis) (n : Map ℕ Peer) (n' : Map (ℕ × Bytes) Bool) (w : World Chain)
      → ((w : World Chain)
          → w.portal.peers ≡ []
          → set_each ok put_peer g.peers w
            ≡ (ok tt, with_portal (record (w.portal) { peers = n }) w))
      → ((w : World Chain)
          → w.portal.bridging_paths ≡ []
          → set_each read_path put_path g.bridging_paths w
            ≡ (ok tt, with_portal (record (w.portal) { bridging_paths = n' }) w))
      → init_portal g (with_portal empty_portal w) ≡ (
        ok tt,
        with_portal
            (record {
              owner = some g.owner;
              paused = some g.paused;
              peers = n;
              bridging_paths = n';
              nonce = some g.nonce;
            })
            w,
      )
  unfolding init_portal
  init_portal-run g n n' w done done' =
      let start : Map ℕ Peer → World Chain = λ peers.
        with_portal
          (record {
            owner = some g.owner;
            paused = some g.paused;
            peers = peers;
            bridging_paths = [];
            nonce = none;
          })
          w in
      rw (done (start []) refl, done' (start n) refl) refl

module _ {Chain : Type 0} (w w₀ : World Chain) (distinct_peers : Distinct w.portal.peers)
    (distinct_paths : Distinct w.portal.bridging_paths) (peers : Map ℕ Peer)
    (entries : SameEntries peers (get_portal_peers w.portal.peers)) where
  read_peers :
      (n : Map ℕ Peer) × ((w : World Chain)
        → w.portal.peers ≡ []
        → set_each ok put_peer peers w ≡ (ok tt, with_portal (record (w.portal) { peers = n }) w))
      × ((chain : ℕ) → lookup chain n ≡ lookup chain w.portal.peers)
  unfolding get_portal_peers
  read_peers =
      let m = w.portal.peers in
      set_each-same ok (λ w. w.portal.peers)
        (λ n w. with_portal (record (w.portal) { peers = n }) w) (λ n w. refl) (λ n n' w. refl)
        (λ w. refl) m peers
        (collect-Sound (λ chain. chain) (λ peer. peer) ok m distinct_peers (λ k v w e. refl) peers
          entries)
        (collect-Complete (λ chain. chain) (λ peer. peer) ok m distinct_peers (λ k v w e. refl)
          peers entries)

  read_paths :
      (n : Map (ℕ × Bytes) Bool) × ((w' : World Chain)
        → w'.portal.bridging_paths ≡ []
        → set_each read_path put_path (get_portal_bridging_paths w.portal.bridging_paths) w'
          ≡ (ok tt, with_portal (record (w'.portal) { bridging_paths = n }) w'))
      × ((path : ℕ × Bytes) → lookup path n ≡ lookup path (supported w.portal.bridging_paths))
  read_paths =
      let paths = supported w.portal.bridging_paths in
      let distinct = supported-Distinct w.portal.bridging_paths distinct_paths in
      let readable : (k : ℕ × Bytes) (v : Bool)
          → lookup k paths ≡ some v
          → read_path k ≡ ok (k, v) =
        λ k v e. rw (supported-true k v w.portal.bridging_paths e) refl in
      rw (get_portal_bridging_paths-map w.portal.bridging_paths) (
        set_each-same read_path (λ w. w.portal.bridging_paths)
          (λ n w. with_portal (record (w.portal) { bridging_paths = n }) w) (λ n w. refl)
          (λ n n' w. refl) (λ w. refl) paths (map (λ e. e.0) paths)
          (map-Sound (λ e. e.0) read_path paths distinct readable)
          (map-Complete (λ e. e.0) read_path paths distinct readable))

  -- The export of the portal, read by a chain whose portal is empty.
  pub init_portal-export_portal :
      (p : Portal) × (init_portal
          (record (export_portal w) { peers = peers })
          (with_portal empty_portal w₀)
        ≡ (ok tt, with_portal p w₀))
      × SamePortal w.portal p
  unfolding export_portal get_portal_paused
  init_portal-export_portal =
      let (n, done, f) = read_peers in
      let (n', done', f') = read_paths in
      (
        _,
        init_portal-run (record (export_portal w) { peers = peers }) n n' w₀ done done',
        record {
          same_owners = refl;
          same_paused = refl;
          same_peers = f;
          same_paths =
              λ path. rw (f' path) (lookup-supported path w.portal.bridging_paths distinct_paths);
          same_nonce = refl;
        },
      )
