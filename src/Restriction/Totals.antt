-- ===== src/Restriction/Totals.antt =====
-- The sum of the principals and the total of the statistics under the parts of `SendRestrictionFn`.
use dollar.Base.{◌≡◌, refl, inl, inr, Bool, true, false, some, Option-cases}
use dollar.Base.Int.{ℤ, ◌+ℤ◌, ◌-ℤ◌, int_laws, is_zero, fits256}
use dollar.Base.Bytes.{Bytes, bytes_eq}
use dollar.Base.Key.{bytes_key}
use dollar.Base.Map.{lookup, insert}
use dollar.Base.Map.Laws.{sum, sum-insert}
use dollar.Types.{M, ok, ◌>>=◌, when}
use dollar.Types.Store.{World, Stats}
use dollar.Types.Env.{Env}
use dollar.State.Names.{module_address}
use dollar.State.Dollar.{
  safe_add, safe_sub, increment_total_holders, decrement_total_holders, increment_total_principal,
  decrement_total_principal,
}
use dollar.Restriction.{balance_of, principal_of, set_principal, debit_sender, credit_recipient}

-- The sum of the principals of all accounts.
abbrev pub held : {Chain : Type 0} → World Chain → ℤ
held w = sum (λ principal. principal) w.dollar.principal

-- The statistics are there with the total `t`, the principals sum to `h`, and the index is `i`.
pub record Totals {Chain : Type 0} (w : World Chain) (h t i : ℤ) : Type 0 where
  pub stats : Stats
  pub has_stats : w.dollar.stats ≡ some stats
  pub of_total : stats.total_principal ≡ t
  pub of_held : held w ≡ h
  pub of_index : w.dollar.index ≡ some i

-- The call returns, and leaves these totals.
abbrev pub Leaves : {Chain A : Type 0} → M (World Chain) A → A → World Chain → ℤ → ℤ → ℤ → Type 0
Leaves {Chain} m a w h t i = (w' : World Chain) × (m w ≡ (ok a, w')) × Totals w' h t i

module _ {Chain : Type 0} where
  -- The totals do not depend on the state of the other modules.
  pub on_chain-Totals :
      (w : World Chain) (h t i : ℤ) (c : Chain)
      → Totals w h t i
      → Totals (record w { chain = c }) h t i
  on_chain-Totals w h t i c r = record {
    stats = r.stats;
    has_stats = r.has_stats;
    of_total = r.of_total;
    of_held = r.of_held;
    of_index = r.of_index;
  }

  -- A write of one principal changes the sum by the difference.
  held-set_principal :
      (account : Bytes) (n : ℤ) (w : World Chain)
      → sum (λ principal. principal) (insert account n w.dollar.principal) +ℤ principal_of account w
        ≡ held w +ℤ n
  unfolding principal_of
  held-set_principal account n w = elim (Option-cases (lookup account w.dollar.principal)) [
    | inl e ↦ rw e (rw e at (sum-insert (λ principal. principal) account n w.dollar.principal))
    | inr (m, e) ↦ rw e (rw e at (sum-insert (λ principal. principal) account n w.dollar.principal))
  ]

  set_principal-Totals :
      (account : Bytes) (n : ℤ) (w : World Chain) (h h₁ t i : ℤ)
      → Totals w h t i
      → h₁ +ℤ principal_of account w ≡ h +ℤ n
      → Leaves (set_principal account n) tt w h₁ t i
  unfolding set_principal
  set_principal-Totals account n w h h₁ t i r e = (
    _,
    refl,
    record {
      stats = r.stats;
      has_stats = r.has_stats;
      of_total = r.of_total;
      of_held = grind (int_laws, held-set_principal account n w, r.of_held);
      of_index = r.of_index;
    },
  )

  decrement_total_holders-Totals :
      (w : World Chain) (h t i : ℤ) → Totals w h t i → Leaves decrement_total_holders tt w h t i
  unfolding decrement_total_holders
  decrement_total_holders-Totals w h t i r = rw r.has_stats (
    _,
    refl,
    record {
      stats = _;
      has_stats = refl;
      of_total = r.of_total;
      of_held = r.of_held;
      of_index = r.of_index;
    },
  )

  increment_total_holders-Totals :
      (w : World Chain) (h t i : ℤ) → Totals w h t i → Leaves increment_total_holders tt w h t i
  unfolding increment_total_holders
  increment_total_holders-Totals w h t i r = rw r.has_stats (
    _,
    refl,
    record {
      stats = _;
      has_stats = refl;
      of_total = r.of_total;
      of_held = r.of_held;
      of_index = r.of_index;
    },
  )

  increment_total_principal-Totals :
      (p : ℤ) (w : World Chain) (h t i : ℤ)
      → fits256 (t +ℤ p) ≡ true
      → Totals w h t i
      → Leaves (increment_total_principal p) tt w h (t +ℤ p) i
  unfolding increment_total_principal safe_add
  increment_total_principal-Totals p w h t i fits r =
      rw (r.has_stats, r.of_total, fits)
        (
          _,
          refl,
          record {
            stats = _;
            has_stats = refl;
            of_total = refl;
            of_held = r.of_held;
            of_index = r.of_index;
          },
        )

  pub decrement_total_principal-Totals :
      (p : ℤ) (w : World Chain) (h t i : ℤ)
      → fits256 (t -ℤ p) ≡ true
      → Totals w h t i
      → Leaves (decrement_total_principal p) tt w h (t -ℤ p) i
  unfolding decrement_total_principal safe_sub
  decrement_total_principal-Totals p w h t i fits r =
      rw (r.has_stats, r.of_total, fits)
        (
          _,
          refl,
          record {
            stats = _;
            has_stats = refl;
            of_total = refl;
            of_held = r.of_held;
            of_index = r.of_index;
          },
        )

  pub bind-Leaves :
      {A B : Type 0} (m : M (World Chain) A) (f : A → M (World Chain) B) (a : A) (b : B)
      (w : World Chain) (h t h₁ t₁ i : ℤ)
      → Leaves m a w h t i
      → ((w₁ : World Chain) → Totals w₁ h t i → Leaves (f a) b w₁ h₁ t₁ i)
      → Leaves (m >>= f) b w h₁ t₁ i
  bind-Leaves m f a b w h t h₁ t₁ i (w₁, e, r) k = rw e (k w₁ r)

  when-Leaves :
      (c : Bool) (m : M (World Chain) (Unit {0})) (w : World Chain) (h t i : ℤ)
      → Totals w h t i
      → Leaves m tt w h t i
      → Leaves (when c m) tt w h t i
  when-Leaves true m w h t i r k = k
  when-Leaves false m w h t i r k = (w, refl, r)

module _ {Chain Decimal : Type 0} (env : Env Chain Decimal) (w : World Chain) (p h t i : ℤ) where
  -- A user who sends loses the principal, and the total stays.
  pub debit_sender-user :
      (sender : Bytes)
      → bytes_eq sender (module_address env) ≡ false
      → Totals w h t i
      → Leaves (debit_sender env sender p) tt w (h -ℤ p) t i
  unfolding debit_sender
  debit_sender-user sender user r = rw user (
      bind-Leaves (set_principal sender (principal_of sender w -ℤ p))
        (λ _ w₁. when (is_zero (balance_of env sender w₁)) decrement_total_holders w₁) tt tt w
        (h -ℤ p) t (h -ℤ p) t i (set_principal-Totals sender _ w h (h -ℤ p) t i r (omega int_laws))
        (λ w₁ r₁.
          when-Leaves (is_zero (balance_of env sender w₁)) decrement_total_holders w₁ (h -ℤ p) t i
            r₁ (decrement_total_holders-Totals w₁ (h -ℤ p) t i r₁)))

  -- An issuance takes no principal from an account, and the total rises.
  pub debit_sender-module :
      (sender : Bytes)
      → bytes_eq sender (module_address env) ≡ true
      → fits256 (t +ℤ p) ≡ true
      → Totals w h t i
      → Leaves (debit_sender env sender p) tt w h (t +ℤ p) i
  unfolding debit_sender
  debit_sender-module sender issues fits r =
      rw issues (increment_total_principal-Totals p w h t i fits r)

  -- A recipient gains the principal.
  pub credit_recipient-Leaves :
      (recipient : Bytes)
      → Totals w h t i
      → Leaves (credit_recipient env recipient p) tt w (h +ℤ p) t i
  unfolding credit_recipient
  credit_recipient-Leaves recipient r =
      bind-Leaves (set_principal recipient (principal_of recipient w +ℤ p))
        (λ _ w₁. when (is_zero (balance_of env recipient w₁)) increment_total_holders w₁) tt tt w
        (h +ℤ p) t (h +ℤ p) t i
        (set_principal-Totals recipient _ w h (h +ℤ p) t i r (omega int_laws))
        (λ w₁ r₁.
          when-Leaves (is_zero (balance_of env recipient w₁)) increment_total_holders w₁ (h +ℤ p) t
            i r₁ (increment_total_holders-Totals w₁ (h +ℤ p) t i r₁))
