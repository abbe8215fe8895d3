-- ===== src/Index/Monotone.antt =====
-- The stored index around `UpdateIndex` (keeper/msg_server.go).
use dollar.Base.{◌≡◌, refl, some, arith, Bool-cases, inl, inr, if◌then◌else◌}
use dollar.Base.Int.{ℤ, pos, ◌-ℤ◌, leb_ℤ, is_positive}
use dollar.Types.{M, Result, ok, err, panic, bind, get_item-some, gets, lift, ◌>>=◌}
use dollar.Types.Store.{World, Event, index_updated}
use dollar.Types.Env.{Env}
use dollar.Math.{get_present_amount}
use dollar.Bank.{mint_coins, send_coins_from_module_to_module}
use dollar.State.Names.{module_name, yield_name, set_dollar, emit}
use dollar.State.Dollar.{get_total_principal, increment_total_yield_accrued}
use dollar.State.Vaults.{is_vaults_season_one_ended}
use dollar.Index.Vaults.{handle_vaults_yield_season_one, handle_vaults_yield_season_two}
use dollar.Index.External.{claim_external_yield_ibc, claim_external_yield_hyperlane}
use dollar.Index.Update.{accrue_yield, raise_index, update_index}
use dollar.Index.Refusal.{update_index-refused}
use dollar.Index.Keeping.{At, Keeps, At-IsStable}
use dollar.Types.Rules.{bind-Preserves, reads-Preserves, if-Preserves}
use dollar.Bank.Keeping.{on_chain-Preserves, to_module-Preserves}
use dollar.Index.Raising.{
  handle_vaults_yield_season_one-Keeps, handle_vaults_yield_season_two-Keeps,
}
use dollar.Index.Distributing.{
  TransfersKeep, claim_external_yield_ibc-Keeps, claim_external_yield_hyperlane-Keeps,
}

-- The call leaves the index at a value, wherever it starts.
record Reaches {Chain A : Type 0} (i : ℤ) (m : M (World Chain) A) : Type 0 where
  reaches : (w : World Chain) → At i (m w).1

module _ {Chain : Type 0} (i : ℤ) where
  bind-Reaches :
      {A B : Type 0} (m : M (World Chain) A) {f : A → M (World Chain) B}
      → Reaches i m
      → ((a : A) → Keeps i (f a))
      → Reaches i (m >>= f)
  bind-Reaches {A} {B} m {f} h k = record { reaches = λ w. go (m w) (h.reaches w) }
    where
      go : (r : Result A × World Chain) → At i r.1 → At i (bind r f).1
      go (ok a, w) e = (k a).keeps w e
      go (err x, w) e = e
      go (panic, w) e = e

  get_total_principal-Keeps : Keeps i (get_total_principal {Chain = Chain})
  unfolding get_total_principal
  get_total_principal-Keeps = record { keeps = λ w e. ground arith }

  accrued-Keeps : (n : ℤ) → Keeps i (increment_total_yield_accrued {Chain = Chain} n)
  unfolding increment_total_yield_accrued
  accrued-Keeps n = record { keeps = λ w e. ground arith }

module _ {Chain Decimal : Type 0} (env : Env Chain Decimal) (i : ℤ)
    (keep : TransfersKeep env i) where
  minted-Keeps : (coins : ℤ) → Keeps i (mint_coins env module_name coins)
  unfolding mint_coins
  minted-Keeps coins = on_chain-Preserves (At i) (At-IsStable i) _

  accrue_yield-Keeps : (total : ℤ) → Keeps i (accrue_yield env total i)
  unfolding accrue_yield
  accrue_yield-Keeps total =
      bind-Preserves (At i) {B = ℤ} (gets (λ w. env.get_supply w.chain)) (reads-Preserves (At i) _)
        (λ supply.
          bind-Preserves (At i) {B = ℤ} (lift (get_present_amount total i))
            (reads-Preserves (At i) _)
            (λ expected.
              bind-Preserves (At i) {B = ℤ} (lift (env.new_coins (expected -ℤ supply)))
                (reads-Preserves (At i) _)
                (λ coins.
                  if-Preserves (At i) (is_positive coins)
                    (bind-Preserves (At i) {B = ℤ} (mint_coins env module_name coins)
                      (minted-Keeps coins)
                      (λ _.
                        bind-Preserves (At i) {B = ℤ}
                          (send_coins_from_module_to_module env module_name yield_name coins)
                          (to_module-Preserves env (At i) (At-IsStable i) module_name yield_name
                            coins)
                          (λ _.
                            bind-Preserves (At i) {B = ℤ} (increment_total_yield_accrued coins)
                              (accrued-Keeps i coins)
                              (λ _. reads-Preserves (At i) (λ _. ok coins)))))
                    (reads-Preserves (At i) (λ _. ok (pos 0))))))

  emitted-Keeps : (e : Event) → Keeps i (emit {Chain = Chain} e)
  emitted-Keeps e = record { keeps = λ w h. h }

  raise_index-Reaches : (old : ℤ) → Reaches i (raise_index env old i)
  unfolding raise_index
  raise_index-Reaches old =
      bind-Reaches i {B = Unit {0}} (set_dollar (λ d. record d { index = some i }))
        (record { reaches = λ w. refl })
        (λ _.
          bind-Preserves (At i) {B = Unit {0}} get_total_principal (get_total_principal-Keeps i)
            (λ total.
              bind-Preserves (At i) {B = Unit {0}} (accrue_yield env total i)
                (accrue_yield-Keeps total)
                (λ yield.
                  bind-Preserves (At i) {B = Unit {0}} (gets is_vaults_season_one_ended)
                    (reads-Preserves (At i) _)
                    (λ ended.
                      bind-Preserves (At i) {B = Unit {0}}
                        (if ended
                          then handle_vaults_yield_season_two env
                          else handle_vaults_yield_season_one env i)
                        (if-Preserves (At i) ended (handle_vaults_yield_season_two-Keeps env i)
                          (handle_vaults_yield_season_one-Keeps env i i))
                        (λ _.
                          bind-Preserves (At i) {B = Unit {0}} (claim_external_yield_ibc env)
                            (claim_external_yield_ibc-Keeps env i keep)
                            (λ _.
                              bind-Preserves (At i) {B = Unit {0}}
                                (claim_external_yield_hyperlane env)
                                (claim_external_yield_hyperlane-Keeps env i keep)
                                (λ _. emitted-Keeps (index_updated old i total yield))))))))

-- An index update leaves the stored index as it is when the new one is not above it, and the new
-- index otherwise: the index never decreases. This holds for every outcome, an error and a panic
-- included, when the transfers of the other modules touch the index only through the send
-- restriction.
pub update_index-index :
    {Chain Decimal : Type 0} (env : Env Chain Decimal) (old raised : ℤ) (w : World Chain)
    → TransfersKeep env raised
    → w.dollar.index ≡ some old
    → (update_index env raised w).1.dollar.index ≡ some (if leb_ℤ raised old then old else raised)
unfolding update_index
update_index-index env old raised w keep e = elim (Bool-cases (leb_ℤ raised old)) [
  | inl c ↦ rw (update_index-refused env old raised w e (ground arith), c) e
  | inr c ↦
      rw (get_item-some (λ v. v.dollar.index) w old e, c)
        ((raise_index-Reaches env raised keep old).reaches w)
]
