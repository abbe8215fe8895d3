-- ===== src/Tests/Genesis.antt =====
-- A run of the theorem on genesis.
use dollar.Base.{◌≡◌, refl, sym, ap, inl, true, false, some, [], ◌∷◌, arith}
use dollar.Base.Int.{pos, negsuc}
use dollar.Base.Bytes.{codes, bytes_eq}
use dollar.Base.Key.{Key, int_key, bytes_key, pair_key}
use dollar.Base.Map.{lookup}
use dollar.Types.{ok}
use dollar.Types.Store.{World, YieldKey, Position, Reward, PositionKey}
use dollar.State.Vaults.{staked}
use dollar.Genesis.Init.{init_genesis}
use dollar.Genesis.Export.{export_genesis}
use dollar.Genesis.Keys.{EnumNames}
use dollar.Genesis.DollarPart.{IntStrings, Visited}
use dollar.Genesis.RoundTrip.{empty_world, Exportable, SameState, init_genesis-export_genesis}
use dollar.Bank.Mock.{Balances}
use dollar.Tests.Sample.{alice, sample_env, sample_portal, sample_vaults, sample_world}

abbrev sample_position : Position
sample_position = record {
  principal = pos 10;
  index = pos 1_200_000_000_000;
  amount = pos 12;
  time = pos 400;
}

abbrev sample_reward : Reward
sample_reward = record { index = pos 1_200; total = pos 30; rewards = pos 9 }

-- A position, a reward, and two bridging paths of which one is supported.
abbrev genesis_world : World Balances
genesis_world = record sample_world {
  portal = record sample_portal {
    bridging_paths = ((2, codes "a"), true) ∷ ((2, codes "b"), false) ∷ [];
  };
  vaults = record sample_vaults {
    positions = ((alice, (staked, pos 400)), sample_position) ∷ [];
    rewards = (pos 1_200, sample_reward) ∷ [];
  };
}

sample-EnumNames : EnumNames sample_env
unfolding lookup
sample-EnumNames p name e = ground arith

sample-IntStrings : IntStrings sample_env
sample-IntStrings (pos n) = refl
sample-IntStrings (negsuc n) = refl

module _ {K V : Type 0} ⦃key : Key K⦄ where
  lookup_single : (k j : K) (v w : V) → lookup j ((k, v) ∷ []) ≡ some w → (k ≡ j) × (v ≡ w)
  unfolding lookup
  lookup_single k j v w e = ground (arith, key.beq_iff k j)

genesis_world-Exportable : Exportable sample_env genesis_world
unfolding lookup bytes_eq
genesis_world-Exportable = record {
  exportable_dollar = record {
    distinct_principal = (refl, (refl, tt));
    own_addresses = λ account n e. (account, refl, refl);
    plain_yields = (tt, λ key v e. cc);
    plain_recipients = (tt, λ key v e. cc);
    plain_retries = (
      (refl, tt),
      λ key v e.
          let (same, n) = lookup_single {K = YieldKey} (pos 0, codes "channel-0") key (pos 5) v e in
          (inl (sym (ap (λ (k : YieldKey). k.0) same)), rw (sym same) refl),
    );
  };
  distinct_peers = (refl, tt);
  distinct_paths = (refl, (refl, tt));
  own_keys = record {
    distinct_positions = (refl, tt);
    distinct_rewards = (refl, tt);
    own_time = λ key p e.
        let (same, q) =
          lookup_single {K = PositionKey} (alice, (staked, pos 400)) key sample_position p e in
        rw (sym same, sym q) refl;
    own_index = λ index r e.
        let (same, q) = lookup_single (pos 1_200) index sample_reward r e in
        rw (sym same, sym q) refl;
  };
}

visits : Visited (export_genesis sample_env genesis_world) (export_genesis sample_env genesis_world)
visits = record {
  of_portal = refl;
  of_peers = λ e. (λ h. h, λ h. h);
  of_vaults = refl;
  of_paused = refl;
  of_index = refl;
  of_principal = λ e. (λ h. h, λ h. h);
  of_stats = refl;
  of_yields = λ e. (λ h. h, λ h. h);
  of_recipients = λ e. (λ h. h, λ h. h);
  of_retries = λ e. (λ h. h, λ h. h);
}

init_genesis-export_genesis_example :
    (w' : World Balances) × (init_genesis sample_env
        (export_genesis sample_env genesis_world)
        (empty_world [])
      ≡ (ok tt, w'))
    × SameState sample_env genesis_world w' []
init_genesis-export_genesis_example =
    init_genesis-export_genesis sample_env (export_genesis sample_env genesis_world) genesis_world
      [] sample-EnumNames sample-IntStrings genesis_world-Exportable visits
