-- ===== src/Portal/Burning.antt =====
-- What `Transfer` (keeper/msg_server_portal.go) does to the supply and to the nonce.
use dollar.Base.{
  ℕ, ◌+◌, ◌-◌, ◌%◌, ◌^◌, ◌≤◌, ◌<◌, ◌≡◌, refl, true, Option, none, some, arith, ap, sym, ◌∙◌,
}
use dollar.Base.Int.{ℤ, pos, ◌-ℤ◌, ◌≤ℤ◌, fits256}
use dollar.Base.Bytes.{Bytes}
use dollar.Types.{
  Error, ok, bad_address, lift, get_item, or_throw, get_item-Preserves, get_item-some, Preserves,
  ◌>>=◌, ◌>>◌,
}
use dollar.Types.Rules.{
  bind-Preserves, reads-Preserves, Ensures, bind-Ensures, keeps-Ensures, fact-Ensures,
}
use dollar.Types.Store.{World, Dollar, Event}
use dollar.Types.Env.{Env}
use dollar.Math.{get_principal_amount_rounded_up}
use dollar.Math.Rounding.{up}
use dollar.State.Names.{module_name, module_address, emit}
use dollar.State.Portal.{increment_portal_nonce}
use dollar.Restriction.{balance_of}
use dollar.Restriction.Totals.{Totals, on_chain-Totals}
use dollar.Bank.{on_chain, burn_coins, send_coins_from_account_to_module}
use dollar.Bank.Keeping.{IsStable, on_chain-Preserves, send_coins-Preserves}
use dollar.Bank.Laws.{IsBank, IsUser}
use dollar.Yield.{burn}
use dollar.Yield.Burning.{burn_lem}
use dollar.Index.Solvency.{Worth}
use dollar.Portal.Constants.{uint64_of, int64_of, pad_left}
use dollar.Portal.Transfer.{MsgTransfer, check_transfer, transfer}

-- The supply of $USDN does not depend on the messages that are posted to Wormhole.
pub record PostsAside {Chain Decimal : Type 0} (env : Env Chain Decimal) : Type 0 where
  pub posts :
      (signer message : Bytes) (nonce : ℕ) (c : Chain)
      → env.get_supply (env.post_message signer message nonce c).1 ≡ env.get_supply c

or_throw-Ensures :
    {W A : Type 0} (P : W → Type 0) (o : Option A) (e : Error)
    → Ensures P (or_throw o e) (λ a w. (o ≡ some a) × P w)
or_throw-Ensures P none e = record { ensures = λ w p a w' run. cc }
or_throw-Ensures P (some b) e = record {
  ensures = λ w p a w' run.
      let same : b ≡ a = cc in let still : w ≡ w' = cc in rw same (refl, rw still at p);
}

module _ {Chain Decimal : Type 0} (env : Env Chain Decimal) (msg : MsgTransfer) where
  check_transfer-Preserves : (P : World Chain → Type 0) → Preserves P (check_transfer env msg)
  unfolding check_transfer
  check_transfer-Preserves P = record {
    keeps = λ w p. let same : (check_transfer env msg w).1 ≡ w = ground arith in rw same p;
  }

module _ {Chain Decimal : Type 0} (env : Env Chain Decimal) (d : Dollar) (c : Chain) where
  -- Nothing but the nonce has changed.
  abbrev Aside : Option ℕ → World Chain → Type 0
  Aside n w = (w.dollar ≡ d) × (w.chain ≡ c) × (w.portal.nonce ≡ n)

  increment_portal_nonce-Ensures :
      (n : ℕ)
      → Ensures (Aside (some n)) increment_portal_nonce (λ _. Aside (some ((n + 1) % 2 ^ 32)))
  unfolding increment_portal_nonce
  increment_portal_nonce-Ensures n = record {
    ensures = λ w (e, f, g) k w' run.
        let left : increment_portal_nonce w
            ≡ (ok n, record w { portal = record (w.portal) { nonce = some ((n + 1) % 2 ^ 32) } }) =
          rw (get_item-some (λ v. v.portal.nonce) w n g) refl in
        let still : record w { portal = record (w.portal) { nonce = some ((n + 1) % 2 ^ 32) } }
            ≡ w' =
          ap (λ r. r.1) (sym left ∙ run) in
        rw (sym still) (e, f, refl);
  }

-- The nonce is no part of what a burn writes.
abbrev Nonce : {Chain : Type 0} → ℕ → World Chain → Type 0
Nonce n w = w.portal.nonce ≡ some n

module _ {Chain Decimal : Type 0} (env : Env Chain Decimal) (n : ℕ) where
  Nonce-IsStable : IsStable (Nonce {Chain = Chain} n)
  Nonce-IsStable = record {
    untouched = record { principal = λ w b p. p; stats = λ w s p. p };
    chain = λ w c p. p;
  }

  burn-Nonce : (sender : Bytes) (amount : ℤ) → Preserves (Nonce n) (burn env sender amount)
  unfolding burn send_coins_from_account_to_module burn_coins
  burn-Nonce sender amount =
      bind-Preserves (Nonce n) {B = Unit {0}} (lift (env.new_coins amount))
        (reads-Preserves (Nonce n) _)
        (λ coins.
          bind-Preserves (Nonce n) {B = Unit {0}}
            (send_coins_from_account_to_module env sender module_name coins)
            (bind-Preserves (Nonce n) {B = Unit {0}}
              (on_chain (env.check_module_send module_name sender))
              (on_chain-Preserves (Nonce n) Nonce-IsStable _)
              (λ _. send_coins-Preserves env (Nonce n) Nonce-IsStable _ _ coins))
            (λ _. on_chain-Preserves (Nonce n) Nonce-IsStable (env.burn_coins module_name coins)))

module _ {Chain Decimal : Type 0} (env : Env Chain Decimal) (bank : IsBank env)
    (aside : PostsAside env) (msg : MsgTransfer) (addr : Bytes) (a i n s t : ℕ) (h : ℤ)
    (w : World Chain) where
  abbrev Start : World Chain → Type 0
  Start = Aside env (w.dollar) (w.chain) (some n)

  abbrev Counted : World Chain → Type 0
  Counted = Aside env (w.dollar) (w.chain) (some ((n + 1) % 2 ^ 32))

  -- The amount is burned, and the nonce counted.
  abbrev Paid : World Chain → Type 0
  Paid v =
      (u : ℕ) × (get_principal_amount_rounded_up (pos a) (pos i) ≡ ok (pos u))
      × Worth env i v (h -ℤ pos u) (t - u) (s - a)
      × Nonce ((n + 1) % 2 ^ 32) v

  module _ (positive : 0 < i) (some_amount : 0 < a) (user : IsUser env addr)
      (owns : pos a ≤ℤ balance_of env addr w)
      (balance : pos 0 ≤ℤ balance_of env (module_address env) w) (le : up a i ≤ t) (below : a ≤ s)
      (fits : fits256 (pos t -ℤ pos (up a i)) ≡ true) (worth : Worth env i w h t s) where
    burn-Paid : Ensures Counted (burn env addr (pos a)) (λ _. Paid)
    burn-Paid = record {
      ensures = λ v (d, c, at) u v' run.
          let totals : Totals v h (pos t) (pos i) = record {
            stats = worth.totals.stats;
            has_stats = rw d worth.totals.has_stats;
            of_total = worth.totals.of_total;
            of_held = rw d worth.totals.of_held;
            of_index = rw d worth.totals.of_index;
          } in
          let (v₁, u₁, burned, q, left, supply, _) =
            burn_lem env bank addr a i s t v h positive some_amount user (rw c owns) (rw c balance)
              le fits totals (rw c worth.supply) below in
          let worth' : Worth env i v₁ (h -ℤ pos u₁) (t - u₁) (s - a) = record {
            totals = left;
            supply = supply;
          } in
          let same : v₁ ≡ v' = ap (λ r. r.1) (sym burned ∙ run) in
          let nonce : Nonce ((n + 1) % 2 ^ 32) v' =
            rw run at ((burn-Nonce env ((n + 1) % 2 ^ 32) addr (pos a)).keeps v at) in
          (u₁, q, rw same at worth', nonce);
    }

    post-Paid :
        (signer message : Bytes) (k : ℕ)
        → Preserves Paid (on_chain (env.post_message signer message k))
    post-Paid signer message k = record {
      keeps = λ v (u, q, x, at). (
        u,
        q,
        record {
          totals = on_chain-Totals v _ _ _ _ x.totals;
          supply = rw (aside.posts signer message k v.chain) x.supply;
        },
        at,
      );
    }

    emit-Paid : (e : Event) → Preserves Paid (emit {Chain = Chain} e)
    emit-Paid e = record {
      keeps = λ v (u, q, x, at). (
        u,
        q,
        record {
          totals = record {
            stats = x.totals.stats;
            has_stats = x.totals.has_stats;
            of_total = x.totals.of_total;
            of_held = x.totals.of_held;
            of_index = x.totals.of_index;
          };
          supply = x.supply;
        },
        at,
      );
    }

    -- What follows the burn.
    posted-Paid :
        (signer packet : Bytes) (k : ℕ) (sent digest : Event) (moved : ℤ → Event)
        → Preserves Paid (
            on_chain (env.post_message signer packet k)
            >> (emit sent >> (lift (int64_of (pos a)) >>= λ x. emit (moved x) >> emit digest)))
    posted-Paid signer packet k sent digest moved =
        bind-Preserves Paid {B = Unit {0}} (on_chain (env.post_message signer packet k))
          (post-Paid signer packet k)
          (λ _. bind-Preserves Paid {B = Unit {0}} (emit sent) (emit-Paid sent) (λ _.
            bind-Preserves Paid {B = Unit {0}} (lift (int64_of (pos a))) (reads-Preserves Paid _)
              (λ x.
                bind-Preserves Paid {B = Unit {0}} (emit (moved x)) (emit-Paid (moved x))
                  (λ _. emit-Paid digest))))

    transfer-Paid :
        msg.amount ≡ pos a
        → env.string_to_bytes msg.signer ≡ some addr
        → Ensures Start (transfer env msg) (λ _. Paid)
    unfolding transfer
    transfer-Paid amount valid = rw amount (
        bind-Ensures Start {B = Unit {0}} (check_transfer env msg) (λ _. Start)
          (keeps-Ensures Start _ (check_transfer-Preserves env msg Start))
          (λ peer.
            bind-Ensures Start {B = Unit {0}} (get_item (λ w. w.dollar.index)) (λ _. Start)
              (keeps-Ensures Start _ (get_item-Preserves Start _))
              (λ index.
                bind-Ensures Start {B = Unit {0}} (lift (uint64_of (pos a))) (λ _. Start)
                  (keeps-Ensures Start _ (reads-Preserves Start _))
                  (λ amount.
                    bind-Ensures Start {B = Unit {0}}
                      (or_throw (env.string_to_bytes msg.signer) bad_address)
                      (λ sender v. (env.string_to_bytes msg.signer ≡ some sender) × Start v)
                      (or_throw-Ensures Start _ bad_address)
                      (λ sender. fact-Ensures Start _ (λ got.
                        let same : addr ≡ sender = cc in
                        bind-Ensures Start {B = Unit {0}} (lift (pad_left sender)) (λ _. Start)
                          (keeps-Ensures Start _ (reads-Preserves Start _))
                          (λ raw.
                            bind-Ensures Start {B = Unit {0}} increment_portal_nonce (λ _. Counted)
                              (increment_portal_nonce-Ensures env (w.dollar) (w.chain) n)
                              (λ k.
                                bind-Ensures Counted {B = Unit {0}}
                                  (λ w. (env.get_chain w.chain, w)) (λ _. Counted)
                                  (keeps-Ensures Counted _ (reads-Preserves Counted _))
                                  (λ chain.
                                    bind-Ensures Counted {B = Unit {0}} (burn env sender (pos a))
                                      (λ _. Paid) (rw same at burn-Paid)
                                      (λ _. keeps-Ensures Paid _ (posted-Paid _ _ k _ _ _)))))))))))

  -- With a bank that moves, mints and burns coins by the amount, and where a message that is posted
  -- to Wormhole leaves the supply alone: a transfer that succeeds, of a positive amount that the
  -- sender has, at a positive index, with the statistics there, burns it. It lowers the supply by
  -- the amount, and the sum of all principals and the total principal by the amount's principal
  -- rounded up, and the nonce is counted up by one, modulo 2^32. The sender can send to the module,
  -- the module has no negative balance, and neither the supply nor the total would fall below zero.
  pub transfer-Worth :
      (w' : World Chain)
      → 0 < i
      → 0 < a
      → IsUser env addr
      → pos a ≤ℤ balance_of env addr w
      → pos 0 ≤ℤ balance_of env (module_address env) w
      → up a i ≤ t
      → a ≤ s
      → fits256 (pos t -ℤ pos (up a i)) ≡ true
      → Worth env i w h t s
      → msg.amount ≡ pos a
      → env.string_to_bytes msg.signer ≡ some addr
      → w.portal.nonce ≡ some n
      → transfer env msg w ≡ (ok tt, w')
      → (u : ℕ) × (get_principal_amount_rounded_up (pos a) (pos i) ≡ ok (pos u))
        × Worth env i w' (h -ℤ pos u) (t - u) (s - a)
        × (w'.portal.nonce ≡ some ((n + 1) % 2 ^ 32))
  transfer-Worth w' positive some_amount user owns balance le below fits worth amount valid nonce
        run =
      (transfer-Paid positive some_amount user owns balance le below fits worth amount
          valid).ensures
        w (refl, refl, nonce) tt w' run
