-- ===== src/Bank/Keeping.antt =====
-- What the sends of the bank, with the keeper's send restriction in them (keeper/keeper.go), leave
-- alone: they write principals, the statistics and the state of the other modules.
use dollar.Base.{◌≡◌, refl, false, some, if◌then◌else◌}
use dollar.Base.Int.{ℤ, ◌+ℤ◌, ◌-ℤ◌, is_zero}
use dollar.Base.Bytes.{Bytes, bytes_eq}
use dollar.Base.Map.{Map}
use dollar.Types.{Result, pure, lift, gets, get_item, Preserves, get_item-Preserves}
use dollar.Types.Rules.{
  bind-Preserves, reads-Preserves, when-Preserves, if-Preserves, unless-Preserves,
}
use dollar.Types.Store.{World, Stats}
use dollar.Types.Env.{Env}
use dollar.Math.{get_principal_amount_rounded_down, get_principal_amount_rounded_up}
use dollar.State.Names.{module_address, yield_address}
use dollar.Restriction.{
  principal_of, balance_of, set_principal, debit_sender, credit_recipient, move_principal,
  send_restriction,
}
use dollar.Bank.{
  on_chain, send_coins, send_coins_from_module_to_account, send_coins_from_module_to_module,
}
use dollar.State.Dollar.{
  get_stats, set_stats, safe_add, safe_sub, increment_total_holders, decrement_total_holders,
  increment_total_principal, decrement_total_principal,
}

-- A predicate of the state that the send restriction does not touch.
pub record IsUntouched {Chain : Type 0} (P : World Chain → Type 0) : Type 0 where
  pub principal :
      (w : World Chain) (m : Map Bytes ℤ)
      → P w
      → P (record w { dollar = record (w.dollar) { principal = m } })
  pub stats :
      (w : World Chain) (s : Stats)
      → P w
      → P (record w { dollar = record (w.dollar) { stats = some s } })

-- One that a whole send does not touch.
pub record IsStable {Chain : Type 0} (P : World Chain → Type 0) : Type 0 where
  pub untouched : IsUntouched P
  pub chain : (w : World Chain) (c : Chain) → P w → P (record w { chain = c })

-- A predicate that does not depend on the statistics.
abbrev pub StatsAside : {Chain : Type 0} → (World Chain → Type 0) → Type 0
StatsAside {Chain} P =
    (w : World Chain) (s : Stats)
    → P w
    → P (record w { dollar = record (w.dollar) { stats = some s } })

-- The call that writes the principal of an account keeps the predicate.
abbrev pub Writes : {Chain : Type 0} → (World Chain → Type 0) → Bytes → Type 0
Writes {Chain} P a = (n : ℤ) → Preserves P (set_principal {Chain = Chain} a n)

module _ {Chain : Type 0} (P : World Chain → Type 0) (aside : StatsAside P) where
  stats-Preserves : (s : Stats) → Preserves P (set_stats {Chain = Chain} s)
  stats-Preserves s = record { keeps = λ w p. aside w s p }

  get_stats-Preserves : Preserves P (get_stats {Chain = Chain})
  get_stats-Preserves = get_item-Preserves P (λ w. w.dollar.stats)

  increment_total_holders-Preserves : Preserves P (increment_total_holders {Chain = Chain})
  unfolding increment_total_holders
  increment_total_holders-Preserves =
      bind-Preserves P {B = Unit {0}} get_stats get_stats-Preserves (λ s. stats-Preserves _)

  decrement_total_holders-Preserves : Preserves P (decrement_total_holders {Chain = Chain})
  unfolding decrement_total_holders
  decrement_total_holders-Preserves =
      bind-Preserves P {B = Unit {0}} get_stats get_stats-Preserves (λ s. stats-Preserves _)

  increment_total_principal-Preserves :
      (n : ℤ) → Preserves P (increment_total_principal {Chain = Chain} n)
  unfolding increment_total_principal
  increment_total_principal-Preserves n =
      bind-Preserves P {B = Unit {0}} get_stats get_stats-Preserves (λ s.
        bind-Preserves P {A = ℤ} {B = Unit {0}} (lift (safe_add s.total_principal n))
          (reads-Preserves P _) (λ total. stats-Preserves _))

  decrement_total_principal-Preserves :
      (n : ℤ) → Preserves P (decrement_total_principal {Chain = Chain} n)
  unfolding decrement_total_principal
  decrement_total_principal-Preserves n =
      bind-Preserves P {B = Unit {0}} get_stats get_stats-Preserves (λ s.
        bind-Preserves P {A = ℤ} {B = Unit {0}} (lift (safe_sub s.total_principal n))
          (reads-Preserves P _) (λ total. stats-Preserves _))

module _ {Chain : Type 0} (P : World Chain → Type 0) (untouched : IsUntouched P) where
  pub set_principal-Preserves :
      (a : Bytes) (n : ℤ) → Preserves P (set_principal {Chain = Chain} a n)
  unfolding set_principal
  set_principal-Preserves a n = record { keeps = λ w p. untouched.principal w _ p }

module _ {Chain : Type 0} (P : World Chain → Type 0) (stable : IsStable P) where
  pub on_chain-Preserves :
      {A : Type 0} (m : Chain → Result A × Chain) → Preserves P (on_chain {A = A} {Chain = Chain} m)
  on_chain-Preserves m = record { keeps = λ w p. stable.chain w _ p }

module _ {Chain Decimal : Type 0} (env : Env Chain Decimal) (P : World Chain → Type 0)
    (aside : StatsAside P) where
  debit_sender-Preserves : (a : Bytes) (n : ℤ) → Writes P a → Preserves P (debit_sender env a n)
  unfolding debit_sender
  debit_sender-Preserves a n writes =
      if-Preserves P (bytes_eq a (module_address env))
        (increment_total_principal-Preserves P aside n)
        (bind-Preserves P {B = Unit {0}} (gets (principal_of a)) (reads-Preserves P _) (λ p.
          bind-Preserves P {B = Unit {0}} (set_principal a (p -ℤ n)) (writes (p -ℤ n)) (λ _.
            bind-Preserves P {B = Unit {0}} (gets (balance_of env a)) (reads-Preserves P _)
              (λ balance.
                when-Preserves P (is_zero balance) (decrement_total_holders-Preserves P aside)))))

  credit_recipient-Preserves :
      (a : Bytes) (n : ℤ) → Writes P a → Preserves P (credit_recipient env a n)
  unfolding credit_recipient
  credit_recipient-Preserves a n writes =
      bind-Preserves P {B = Unit {0}} (gets (principal_of a)) (reads-Preserves P _) (λ p.
        bind-Preserves P {B = Unit {0}} (set_principal a (p +ℤ n)) (writes (p +ℤ n)) (λ _.
          bind-Preserves P {B = Unit {0}} (gets (balance_of env a)) (reads-Preserves P _)
            (λ balance.
              when-Preserves P (is_zero balance) (increment_total_holders-Preserves P aside))))

  move_principal-Preserves :
      (a b : Bytes) (n : ℤ) → Writes P a → Writes P b → Preserves P (move_principal env a b n)
  unfolding move_principal
  move_principal-Preserves a b n from to =
      bind-Preserves P {B = Unit {0}} (get_item (λ w. w.dollar.index)) (get_item-Preserves P _)
        (λ index.
          bind-Preserves P {B = Unit {0}} (lift (get_principal_amount_rounded_up n index))
            (reads-Preserves P _)
            (λ p.
              bind-Preserves P {B = Unit {0}} (debit_sender env a p)
                (debit_sender-Preserves a p from)
                (λ _.
                  if-Preserves P (bytes_eq b (module_address env))
                    (decrement_total_principal-Preserves P aside p)
                    (bind-Preserves P {A = ℤ} {B = Unit {0}}
                      (if bytes_eq a (module_address env)
                        then lift (get_principal_amount_rounded_down n index)
                        else pure p)
                      (if-Preserves P (bytes_eq a (module_address env)) (reads-Preserves P _)
                        (reads-Preserves P _))
                      (λ issued. credit_recipient-Preserves b issued to)))))

  -- The restriction writes the principals of its two accounts only, and none of the yield account.
  pub send_restriction-aside :
      (a b : Bytes) (n : ℤ)
      → (bytes_eq a (yield_address env) ≡ false → Writes P a)
      → (bytes_eq b (yield_address env) ≡ false → Writes P b)
      → Preserves P (send_restriction env a b n)
  unfolding send_restriction
  send_restriction-aside a b n from to = if-Preserves P (is_zero n) (reads-Preserves P _) (
      unless-Preserves P (bytes_eq a (yield_address env)) (reads-Preserves P _) (λ from_other.
        unless-Preserves P (bytes_eq b (yield_address env))
          (if-Preserves P (bytes_eq a (module_address env)) (reads-Preserves P _)
            (reads-Preserves P _))
          (λ to_other.
            bind-Preserves P {B = Bytes} (move_principal env a b n)
              (move_principal-Preserves a b n (from from_other) (to to_other))
              (λ _. reads-Preserves P _))))

module _ {Chain Decimal : Type 0} (env : Env Chain Decimal) (P : World Chain → Type 0)
    (untouched : IsUntouched P) where
  pub send_restriction-Preserves : (a b : Bytes) (n : ℤ) → Preserves P (send_restriction env a b n)
  send_restriction-Preserves a b n =
      send_restriction-aside env P untouched.stats a b n
        (λ _. set_principal-Preserves P untouched a) (λ _. set_principal-Preserves P untouched b)

module _ {Chain Decimal : Type 0} (env : Env Chain Decimal) where
  -- The send restriction writes nothing of the bank.
  pub restriction-chain :
      (sender recipient : Bytes) (n : ℤ) (w : World Chain)
      → (send_restriction env sender recipient n w).1.chain ≡ w.chain
  restriction-chain sender recipient n w =
      let at : IsUntouched (λ (v : World Chain). v.chain ≡ w.chain) = record {
        principal = λ v m e. e;
        stats = λ v s e. e;
      } in
      (send_restriction-Preserves env (λ v. v.chain ≡ w.chain) at sender recipient n).keeps w refl

module _ {Chain Decimal : Type 0} (env : Env Chain Decimal) (P : World Chain → Type 0)
    (stable : IsStable P) where
  pub send_coins-Preserves : (a b : Bytes) (n : ℤ) → Preserves P (send_coins env a b n)
  unfolding send_coins
  send_coins-Preserves a b n =
      bind-Preserves P {B = Unit {0}} (on_chain (env.before_restriction a b n))
        (on_chain-Preserves P stable _)
        (λ _.
          bind-Preserves P {B = Unit {0}} (send_restriction env a b n)
            (send_restriction-Preserves env P stable.untouched a b n)
            (λ b'. on_chain-Preserves P stable _))

  pub to_account-Preserves :
      (name b : Bytes) (n : ℤ) → Preserves P (send_coins_from_module_to_account env name b n)
  unfolding send_coins_from_module_to_account
  to_account-Preserves name b n =
      bind-Preserves P {B = Unit {0}} (on_chain (env.check_module_send name b))
        (on_chain-Preserves P stable _)
        (λ _. send_coins-Preserves (env.new_module_address name) b n)

  pub to_module-Preserves :
      (name b : Bytes) (n : ℤ) → Preserves P (send_coins_from_module_to_module env name b n)
  unfolding send_coins_from_module_to_module
  to_module-Preserves name b n =
      bind-Preserves P {B = Unit {0}}
        (on_chain (env.check_module_send name (env.new_module_address b)))
        (on_chain-Preserves P stable _)
        (λ _. send_coins-Preserves (env.new_module_address name) (env.new_module_address b) n)
