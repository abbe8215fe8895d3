-- ===== src/Genesis/Init.antt =====
-- genesis.go: `InitGenesis`.
use dollar.Base.{ℕ, Bool, true, Option, none, some, List, [], ◌∷◌}
use dollar.Base.Int.{ℤ}
use dollar.Base.Bytes.{Bytes}
use dollar.Base.Key.{nat_key, int_key, bytes_key, pair_key}
use dollar.Base.Map.{insert}
use dollar.Types.{M, Result, ok, panic, lift, modify, skip, ◌>>=◌, ◌>>◌}
use dollar.Types.Store.{World, YieldKey, Peer, PositionKey, Position, PositionEntry, Reward}
use dollar.Types.Env.{Env}
use dollar.State.Names.{set_dollar, set_portal, set_vaults}
use dollar.State.Provider.{parse_yield_recipient_key}
use dollar.Genesis.Record.{PortalGenesis, VaultsGenesis, GenesisState}

-- A loop over the entries of a part of the genesis state: each is read, and set in a map of the
-- store.
unfoldable pub set_each :
    {W E K V : Type 0} → (E → Result (K × V)) → (K → V → W → W) → List E → M W (Unit {0})
set_each read set [] = skip
set_each read set (e ∷ es) = do (k, v) ← lift (read e); modify (set k v); set_each read set es

-- `if err != nil { panic(...) }`, and the same for `!ok`.
abbrev pub or_panic : {A : Type 0} → Option A → Result A
or_panic none = panic
or_panic (some a) = ok a

-- The key and the value of an entry of the genesis state.
abbrev pub both : {K V : Type 0} → Result K → Result V → Result (K × V)
both (ok k) (ok v) = ok (k, v)
both (ok k) _ = panic
both _ _ = panic

abbrev pub read_recipient : Bytes × Bytes → Result (YieldKey × Bytes)
read_recipient (key, recipient) = both (parse_yield_recipient_key key) (ok recipient)

abbrev pub read_path : ℕ × Bytes → Result ((ℕ × Bytes) × Bool)
read_path path = ok (path, true)

abbrev pub read_position : PositionEntry → Result (PositionKey × Position)
read_position position = ok (
  (position.address, (position.vault, position.time)),
  record {
    principal = position.principal;
    index = position.index;
    amount = position.amount;
    time = position.time;
  },
)

abbrev pub read_reward : Reward → Result (ℤ × Reward)
read_reward reward = ok (reward.index, reward)

module _ {Chain : Type 0} where
  abbrev pub put_peer : ℕ → Peer → World Chain → World Chain
  put_peer chain peer w = record w {
    portal = record (w.portal) { peers = insert chain peer w.portal.peers };
  }

  abbrev pub put_path : ℕ × Bytes → Bool → World Chain → World Chain
  put_path path supported w = record w {
    portal = record (w.portal) { bridging_paths = insert path supported w.portal.bridging_paths };
  }

  abbrev pub put_position : PositionKey → Position → World Chain → World Chain
  put_position key position w = record w {
    vaults = record (w.vaults) { positions = insert key position w.vaults.positions };
  }

  abbrev pub put_reward : ℤ → Reward → World Chain → World Chain
  put_reward index reward w = record w {
    vaults = record (w.vaults) { rewards = insert index reward w.vaults.rewards };
  }

  abbrev pub put_principal : Bytes → ℤ → World Chain → World Chain
  put_principal account principal w = record w {
    dollar = record (w.dollar) { principal = insert account principal w.dollar.principal };
  }

  abbrev pub put_external_yield : YieldKey → ℤ → World Chain → World Chain
  put_external_yield key amount w = record w {
    dollar = record (w.dollar) {
      total_external_yield = insert key amount w.dollar.total_external_yield;
    };
  }

  abbrev pub put_recipient : YieldKey → Bytes → World Chain → World Chain
  put_recipient key recipient w = record w {
    dollar = record (w.dollar) {
      yield_recipients = insert key recipient w.dollar.yield_recipients;
    };
  }

  abbrev pub put_retry_amount : YieldKey → ℤ → World Chain → World Chain
  put_retry_amount key amount w = record w {
    dollar = record (w.dollar) { retry_amounts = insert key amount w.dollar.retry_amounts };
  }

  unfoldable pub init_portal : PortalGenesis → M (World Chain) (Unit {0})
  unfolding set_each
  init_portal genesis = do
    set_portal (λ p. record p { owner = some genesis.owner })
    set_portal (λ p. record p { paused = some genesis.paused })
    set_each ok put_peer genesis.peers
    set_each read_path put_path genesis.bridging_paths
    set_portal (λ p. record p { nonce = some genesis.nonce })

  unfoldable pub init_vaults : VaultsGenesis → M (World Chain) (Unit {0})
  unfolding set_each
  init_vaults genesis = do
    set_each read_position put_position genesis.positions
    set_each read_reward put_reward genesis.rewards
    set_vaults (λ v. record v { paused = some genesis.paused })
    set_vaults (λ v. record v { season_one_ended = some genesis.season_one_ended })
    set_vaults (λ v. record v { stats = some genesis.stats })
    set_vaults (λ v. record v { total_flexible_principal = some genesis.total_flexible_principal })

module _ {Chain Decimal : Type 0} (env : Env Chain Decimal) where
  abbrev pub read_principal : Bytes × Bytes → Result (Bytes × ℤ)
  read_principal (raw_account, raw_principal) =
      both (or_panic (env.string_to_bytes raw_account))
        (or_panic (env.int_from_string raw_principal))

  abbrev pub read_amount : Bytes × Bytes → Result (YieldKey × ℤ)
  read_amount (key, raw_amount) =
      both (parse_yield_recipient_key key) (or_panic (env.int_from_string raw_amount))

  unfoldable pub init_dollar : GenesisState → M (World Chain) (Unit {0})
  unfolding set_each
  init_dollar genesis = do
    set_dollar (λ d. record d { paused = some genesis.paused })
    set_dollar (λ d. record d { index = some genesis.index })
    set_each read_principal put_principal genesis.principal
    set_dollar (λ d. record d { stats = some genesis.stats })
    set_each read_amount put_external_yield genesis.total_external_yield
    set_each read_recipient put_recipient genesis.yield_recipients
    set_each read_amount put_retry_amount genesis.retry_amounts

  unfoldable pub init_genesis : GenesisState → M (World Chain) (Unit {0})
  init_genesis genesis = do
    init_dollar genesis
    init_portal genesis.portal
    init_vaults genesis.vaults
