-- ===== src/Vaults/Backing/Locking.antt =====
-- `Lock` (keeper/msg_server_vaults.go) and the books of the positions.
use dollar.Base.{
  ℕ, ◌<◌, ◌≡◌, refl, ap, sym, ◌∙◌, false, true, Option, none, some, arith, Bool-cases, inl, inr,
}
use dollar.Base.Int.{ℤ, pos, negsuc, ◌+ℤ◌, ◌≤ℤ◌, eqb_ℤ, int_laws}
use dollar.Base.Bytes.{Bytes}
use dollar.Base.Key.{int_key, bytes_key, pair_key}
use dollar.Base.Map.{Map, lookup, has}
use dollar.Types.{ok, lift, get_item, modify, get_item-some, ◌>>=◌, ◌>>◌}
use dollar.Types.Rules.{
  reads-Preserves, Ensures, bind-Ensures, keeps-Ensures, lift-Ensures, modify-Ensures, fact-Ensures,
}
use dollar.Types.Store.{World, PositionKey, Position, position_locked}
use dollar.Types.Env.{Env}
use dollar.Math.{get_principal_amount_rounded_down}
use dollar.Math.Rounding.{down, rounded_down_formula}
use dollar.Bank.{send_coins}
use dollar.Bank.Keeping.{IsStable, send_coins-Preserves}
use dollar.State.Names.{emit}
use dollar.State.Dollar.{or_zero}
use dollar.State.Vaults.{flexible}
use dollar.Vaults.Account.{to_user_vault_position_module_account, vault_exists}
use dollar.Vaults.Lock.{check_lock, record_position, lock}
use dollar.Vaults.Guards.{check_lock-accepts}
use dollar.Vaults.Backing.Shrinking.{Books, IsCovering, weight}
use dollar.Vaults.Backing.Recording.{
  Recorded, locked-Books, new_key, new_position, raised_total, record_position-Ensures,
}
use dollar.Vaults.Backing.Rounds.{Stored}
use dollar.Vaults.Backing.Unlocking.{IsBacked}

has-none :
    (key : PositionKey) (m : Map PositionKey Position) → has key m ≡ false → lookup key m ≡ none
unfolding has
has-none key m e = ground arith

raised_total-weight :
    {Chain Decimal : Type 0} (env : Env Chain Decimal) (addr : Bytes)
    (vault amount index principal : ℤ) (m : Map PositionKey Position) (t : Option ℤ)
    → or_zero (raised_total env addr vault amount index principal m t)
      ≡ or_zero t
        +ℤ weight
            (new_key env addr vault amount index principal m t)
            (new_position env addr vault amount index principal m t)
raised_total-weight env addr vault amount index principal m t =
    elim (Bool-cases (eqb_ℤ vault flexible)) [ inl c ↦ rw c refl | inr c ↦ rw c (omega int_laws) ]

module _ {Chain Decimal : Type 0} (env : Env Chain Decimal) (signer : Bytes) (vault amount : ℤ)
    (m : Map PositionKey Position) (t : Option ℤ) (i : ℕ) where
  abbrev Indexed : World Chain → Type 0
  Indexed w = Stored m t w × (w.dollar.index ≡ some (pos i))

  Indexed-IsStable : IsStable Indexed
  Indexed-IsStable = record {
    untouched = record { principal = λ w b p. p; stats = λ w s p. p };
    chain = λ w c p. p;
  }

  -- The signer is valid, the amount is large enough, the vault exists, and the key is free.
  abbrev pub Allowed : Bytes → Type 0
  Allowed addr =
      (env.string_to_bytes signer ≡ some addr)
      × (env.vaults_minimum_lock ≤ℤ amount)
      × (vault_exists vault ≡ true)
      × (lookup {K = PositionKey} (addr, (vault, env.unix_time)) m ≡ none)

  -- A position of the amount is written, with its principal at the index, rounded down.
  abbrev pub Locked : World Chain → Type 0
  Locked w =
      (addr : Bytes) × (p : ℤ) × Allowed addr
      × (get_principal_amount_rounded_down amount (pos i) ≡ ok p)
      × Recorded env addr vault amount (pos i) p m t w

  check_lock-Allowed :
      Ensures Indexed (check_lock env signer vault amount) (λ addr w. Allowed addr × Indexed w)
  check_lock-Allowed = record {
    ensures = λ w ((ps, ts), at) addr w' run.
        let (same, valid, least, _, known, free) =
          check_lock-accepts env signer addr vault amount w w' run in
        let free' : has {K = PositionKey} (addr, (vault, env.unix_time)) m ≡ false =
          rw ps at free in
        let fresh = has-none (addr, (vault, env.unix_time)) m free' in
        rw same ((valid, least, known, fresh), ((ps, ts), at));
  }

  index-Ensures : Ensures Indexed (get_item (λ w. w.dollar.index)) (λ j w. (pos i ≡ j) × Indexed w)
  index-Ensures = record {
    ensures = λ w p j w' run.
        let got = get_item-some (λ v. v.dollar.index) w (pos i) p.1 in
        let same : pos i ≡ j = cc in
        let still : w ≡ w' = ap (λ p. p.1) (sym got ∙ run) in (same, rw still at p);
  }

  recorded-Locked :
      (addr : Bytes) (j p : ℤ)
      → Allowed addr
      → pos i ≡ j
      → get_principal_amount_rounded_down amount j ≡ ok p
      → Ensures Indexed (record_position env addr vault amount j p) (λ _. Locked)
  recorded-Locked addr j p allowed same q = record {
    ensures = λ w (st, _) u w' run.
        let left = (record_position-Ensures env addr vault amount j p m t).ensures w st u w' run in
        (addr, p, allowed, rw (sym same) at q, rw (sym same) at left);
  }

  written-Locked :
      (addr : Bytes)
      → Allowed addr
      → (j : ℤ) → pos i ≡ j
      → Ensures Indexed
          (lift (get_principal_amount_rounded_down amount j) >>= λ p.
            record_position env addr vault amount j p
            >> emit (position_locked signer vault j amount p))
          (λ _. Locked)
  written-Locked addr allowed j same =
      bind-Ensures Indexed {B = Unit {0}} (lift (get_principal_amount_rounded_down amount j))
        (λ p w. (get_principal_amount_rounded_down amount j ≡ ok p) × Indexed w)
        (lift-Ensures Indexed _)
        (λ p. fact-Ensures Indexed _ (λ q.
          bind-Ensures Indexed {B = Unit {0}} (record_position env addr vault amount j p)
            (λ _. Locked) (recorded-Locked addr j p allowed same q)
            (λ _. keeps-Ensures Locked _ (record { keeps = λ w b. b }))))

  pub lock-Locked : Ensures Indexed (lock env signer vault amount) (λ _. Locked)
  unfolding lock
  lock-Locked =
      bind-Ensures Indexed {B = Unit {0}} (check_lock env signer vault amount)
        (λ addr w. Allowed addr × Indexed w) check_lock-Allowed
        (λ addr.
          let name = to_user_vault_position_module_account signer vault env.unix_time in
          fact-Ensures Indexed _ (λ allowed.
            bind-Ensures Indexed {B = Unit {0}}
              (modify (λ w. record w { chain = env.set_module_account name w.chain }))
              (λ _. Indexed) (modify-Ensures Indexed _ (λ w p. p))
              (λ _.
                bind-Ensures Indexed {B = Unit {0}} (lift (env.new_coins amount)) (λ _. Indexed)
                  (keeps-Ensures Indexed _ (reads-Preserves Indexed _))
                  (λ coins.
                    bind-Ensures Indexed {B = Unit {0}}
                      (send_coins env addr (env.new_module_address name) coins) (λ _. Indexed)
                      (keeps-Ensures Indexed _
                        (send_coins-Preserves env Indexed Indexed-IsStable _ _ coins))
                      (λ _.
                        bind-Ensures Indexed {B = Unit {0}} (get_item (λ w. w.dollar.index))
                          (λ j w. (pos i ≡ j) × Indexed w) index-Ensures
                          (λ j.
                            fact-Ensures Indexed _
                              (λ same. written-Locked addr allowed j same)))))))

  module _ (low : pos 0 ≤ℤ env.vaults_minimum_lock) (books : Books m (or_zero t)) (h : 0 < i) where
    covers :
        (x p : ℤ)
        → pos 0 ≤ℤ x
        → get_principal_amount_rounded_down x (pos i) ≡ ok p
        → IsCovering (record { principal = p; index = pos i; amount = x; time = env.unix_time })
    covers (pos a) p l e =
        let formula = rounded_down_formula a i h in
        let same : pos (down a i) ≡ p = cc in
        record {
          amount = a;
          index = i;
          of_amount = refl;
          of_index = refl;
          positive = h;
          covers = rw (sym same) (omega arith);
        }
    covers (negsuc a) p l e = absurd (omega arith)

    Locked-IsBacked : (w : World Chain) → Locked w → IsBacked w
    Locked-IsBacked w (addr, p, (_, least, _, fresh), q, (ps, ts)) =
        rw (ps, ts, raised_total-weight env addr vault amount (pos i) p m t)
          (locked-Books m (or_zero t) _ _ books fresh refl
            (covers amount p (omega (arith, low, least)) q))

-- A lock that succeeds, at a positive index and with a minimum that is not negative, keeps the
-- books: no key stands twice, the positions stand under their own times and have at least the
-- principal of their amounts at their indices, and the flexible ones together have no more principal
-- than the total flexible principal, by which rewards are shared.
pub lock-IsBacked :
    {Chain Decimal : Type 0} (env : Env Chain Decimal) (signer : Bytes) (vault amount : ℤ) (i : ℕ)
    (w w' : World Chain)
    → pos 0 ≤ℤ env.vaults_minimum_lock
    → 0 < i
    → w.dollar.index ≡ some (pos i)
    → IsBacked w
    → lock env signer vault amount w ≡ (ok tt, w')
    → IsBacked w'
lock-IsBacked env signer vault amount i w w' low h at books run =
    let m = w.vaults.positions in
    let t = w.vaults.total_flexible_principal in
    Locked-IsBacked env signer vault amount m t i low books h w'
      ((lock-Locked env signer vault amount m t i).ensures w ((refl, refl), at) tt w' run)
