-- ===== src/Restriction/Runs.antt =====
-- Runs of the send restriction (keeper/keeper.go, `SendRestrictionFn`) with raises of the index in
-- between, against a ledger of two numbers.
use dollar.Base.{ℕ, suc, ◌+◌, ◌<◌, ◌≤◌, ◌≡◌, refl, true, false, some, List, [], ◌∷◌}
use dollar.Base.Int.{ℤ, pos, ◌+ℤ◌, ◌-ℤ◌, ◌≤ℤ◌, int_laws, fits256}
use dollar.Base.Bytes.{Bytes, bytes_eq}
use dollar.Types.{M, skip, modify, ◌>>=◌, ◌>>◌}
use dollar.Types.Store.{World}
use dollar.Types.Env.{Env}
use dollar.Math.Rounding.{up, down, up-down}
use dollar.State.Names.{module_address, yield_address, set_dollar}
use dollar.Restriction.{send_restriction}
use dollar.Restriction.Totals.{Totals, Leaves}
use dollar.Restriction.Moves.{
  send_restriction-users, send_restriction-move, move_principal-issue, move_principal-withdraw,
}

issued :
    (h t x : ℤ) (u p d m : ℕ)
    → u ≡ p + d
    → d ≤ 1
    → t +ℤ pos u -ℤ (h +ℤ pos p) ≤ℤ x
    → x ≤ℤ t +ℤ pos u -ℤ (h +ℤ pos p) +ℤ pos m
    → (t -ℤ h ≤ℤ x) × (x ≤ℤ t -ℤ h +ℤ pos (suc m))
issued h t x u p d m e small low high = (omega int_laws, omega int_laws)

withdrawn :
    (h t x : ℤ) (u m : ℕ)
    → t -ℤ pos u -ℤ (h -ℤ pos u) ≤ℤ x
    → x ≤ℤ t -ℤ pos u -ℤ (h -ℤ pos u) +ℤ pos m
    → (t -ℤ h ≤ℤ x) × (x ≤ℤ t -ℤ h +ℤ pos m)
withdrawn h t x u m low high = (omega int_laws, omega int_laws)

-- A transfer, with what the bank does to the other modules' state after the restriction, or a new
-- index.
pub data Step (Chain : Type 0) : Type 0 where
  transfer : Bytes → Bytes → ℕ → (Chain → Chain) → Step Chain
  raise : ℕ → Step Chain

module _ {Chain Decimal : Type 0} (env : Env Chain Decimal) where
  abbrev pub run_step : Step Chain → M (World Chain) (Unit {0})
  run_step (transfer sender recipient a settle) = do
    send_restriction env sender recipient (pos a) >>= λ _. skip
    modify (λ w. record w { chain = settle w.chain })
  run_step (raise i) = set_dollar (λ d. record d { index = some (pos i) })

  abbrev pub run : List (Step Chain) → M (World Chain) (Unit {0})
  run [] = skip
  run (s ∷ ss) = do run_step s; run ss

  abbrev pub Module : Bytes → Type 0
  Module account = bytes_eq account (module_address env) ≡ true

  abbrev pub NoModule : Bytes → Type 0
  NoModule account = bytes_eq account (module_address env) ≡ false

  abbrev pub NoYield : Bytes → Type 0
  NoYield account = bytes_eq account (yield_address env) ≡ false

  -- The ledger: the index, the principal that is held and the total. Transfers between users change
  -- nothing, an issuance adds its principal, rounded down for the holder and up in the total, and a
  -- withdrawal takes its principal, rounded up, from both. The last number counts the issuances.
  pub data Ledger : ℕ → ℤ → ℤ → List (Step Chain) → ℕ → ℤ → ℤ → ℕ → Type 0 where
    stop : {i : ℕ} {h t : ℤ} → Ledger i h t [] i h t 0
    between :
        {i j n a : ℕ} {h t h' t' : ℤ} {ss : List (Step Chain)} {from to : Bytes}
        {settle : Chain → Chain}
        → 0 < a
        → NoYield from
        → NoYield to
        → NoModule from
        → NoModule to
        → Ledger i h t ss j h' t' n
        → Ledger i h t (transfer from to a settle ∷ ss) j h' t' n
    issue :
        {i j n a : ℕ} {h t h' t' : ℤ} {ss : List (Step Chain)} {from to : Bytes}
        {settle : Chain → Chain}
        → 0 < a
        → NoYield from
        → NoYield to
        → Module from
        → NoModule to
        → fits256 (t +ℤ pos (up a i)) ≡ true
        → Ledger i (h +ℤ pos (down a i)) (t +ℤ pos (up a i)) ss j h' t' n
        → Ledger i h t (transfer from to a settle ∷ ss) j h' t' (suc n)
    withdraw :
        {i j n a : ℕ} {h t h' t' : ℤ} {ss : List (Step Chain)} {from to : Bytes}
        {settle : Chain → Chain}
        → 0 < a
        → NoYield from
        → NoYield to
        → NoModule from
        → Module to
        → fits256 (t -ℤ pos (up a i)) ≡ true
        → Ledger i (h -ℤ pos (up a i)) (t -ℤ pos (up a i)) ss j h' t' n
        → Ledger i h t (transfer from to a settle ∷ ss) j h' t' n
    raised :
        {i i' j n : ℕ} {h t h' t' : ℤ} {ss : List (Step Chain)}
        → 0 < i'
        → Ledger i' h t ss j h' t' n
        → Ledger i h t (raise i' ∷ ss) j h' t' n

  -- The bank's part leaves the totals.
  settled :
      (from to : Bytes) (a i : ℕ) (settle : Chain → Chain) (w : World Chain) (h t : ℤ)
      → Leaves (send_restriction env from to (pos a)) to w h t (pos i)
      → Leaves (run_step (transfer from to a settle)) tt w h t (pos i)
  settled from to a i settle w h t (w₁, e, r) = rw e (
    _,
    refl,
    record {
      stats = r.stats;
      has_stats = r.has_stats;
      of_total = r.of_total;
      of_held = r.of_held;
      of_index = r.of_index;
    },
  )

  run-Ledger :
      (i j n : ℕ) (h t h' t' : ℤ) (ss : List (Step Chain)) (w : World Chain)
      → 0 < i
      → Totals w h t (pos i)
      → Ledger i h t ss j h' t' n
      → Leaves (run ss) tt w h' t' (pos j)
  run-Ledger i j n h t h' t' ss w positive r stop = (w, refl, r)
  run-Ledger i j n h t h' t' (transfer from to a settle ∷ ss) w positive r
        (between some_amount y z f g rest) =
      let (w₁, e, r₁) =
        settled from to a i settle w h t
          (send_restriction-users env from to a i w h t positive some_amount y z f g r) in
      let (w₂, e₂, r₂) = run-Ledger i j n h t h' t' ss w₁ positive r₁ rest in (w₂, rw e e₂, r₂)
  run-Ledger i j n h t h' t' (transfer from to a settle ∷ ss) w positive r
        (issue {n = m} some_amount y z f g fits rest) =
      let (w₁, e, r₁) = settled from to a i settle w (h +ℤ pos (down a i)) (t +ℤ pos (up a i)) (
        send_restriction-move env from to a i w h t w (h +ℤ pos (down a i)) (t +ℤ pos (up a i))
          some_amount y z (move_principal-issue env from to a i w h t positive f g fits r)) in
      let (w₂, e₂, r₂) =
        run-Ledger i j m (h +ℤ pos (down a i)) (t +ℤ pos (up a i)) h' t' ss w₁ positive r₁ rest in
      (w₂, rw e e₂, r₂)
  run-Ledger i j n h t h' t' (transfer from to a settle ∷ ss) w positive r
        (withdraw some_amount y z f g fits rest) =
      let (w₁, e, r₁) = settled from to a i settle w (h -ℤ pos (up a i)) (t -ℤ pos (up a i)) (
        send_restriction-move env from to a i w h t w (h -ℤ pos (up a i)) (t -ℤ pos (up a i))
          some_amount y z (move_principal-withdraw env from to a i w h t positive f g fits r)) in
      let (w₂, e₂, r₂) =
        run-Ledger i j n (h -ℤ pos (up a i)) (t -ℤ pos (up a i)) h' t' ss w₁ positive r₁ rest in
      (w₂, rw e e₂, r₂)
  run-Ledger i j n h t h' t' (raise i' ∷ ss) w positive r (raised positive' rest) =
      let w₁ = (run_step (raise i') w).1 in
      run-Ledger i' j n h t h' t' ss w₁ positive'
        (record {
          stats = r.stats;
          has_stats = r.has_stats;
          of_total = r.of_total;
          of_held = r.of_held;
          of_index = refl;
        })
        rest

  drift :
      (i j n : ℕ) (h t h' t' : ℤ) (ss : List (Step Chain))
      → 0 < i
      → Ledger i h t ss j h' t' n
      → (t -ℤ h ≤ℤ t' -ℤ h') × (t' -ℤ h' ≤ℤ t -ℤ h +ℤ pos n)
  drift i j n h t h' t' ss positive stop = (omega int_laws, omega int_laws)
  drift i j n h t h' t' (transfer from to a settle ∷ ss) positive
        (between some_amount y z f g rest) =
      drift i j n h t h' t' ss positive rest
  drift i j n h t h' t' (transfer from to a settle ∷ ss) positive
        (issue {n = m} some_amount y z f g fits rest) =
      let (d, small, e) = up-down a i positive in
      let (low, high) =
        drift i j m (h +ℤ pos (down a i)) (t +ℤ pos (up a i)) h' t' ss positive rest in
      issued h t (t' -ℤ h') (up a i) (down a i) d m e small low high
  drift i j n h t h' t' (transfer from to a settle ∷ ss) positive
        (withdraw some_amount y z f g fits rest) =
      let (low, high) =
        drift i j n (h -ℤ pos (up a i)) (t -ℤ pos (up a i)) h' t' ss positive rest in
      withdrawn h t (t' -ℤ h') (up a i) n low high
  drift i j n h t h' t' (raise i' ∷ ss) positive (raised positive' rest) =
      drift i' j n h t h' t' ss positive' rest

module _ {Chain Decimal : Type 0} (env : Env Chain Decimal) where
  -- Every run of the ledger from a positive index is a run of the keeper: transfers of positive
  -- amounts, none of them with the yield account, between users, from the module to a user within
  -- 256 bits, and from a user to the module within 256 bits, whatever the bank does to the other
  -- modules' state, and writes of a positive index. From a state with the ledger's totals and index
  -- all steps succeed and leave the ledger's new totals and index; and the total principal of the
  -- statistics runs ahead of the sum of all principals by one more for each issuance at most, and
  -- never falls back.
  pub run-Ledger_drift :
      (i j n : ℕ) (h t h' t' : ℤ) (ss : List (Step Chain)) (w : World Chain)
      → 0 < i
      → Totals w h t (pos i)
      → Ledger env i h t ss j h' t' n
      → Leaves (run env ss) tt w h' t' (pos j)
        × (t -ℤ h ≤ℤ t' -ℤ h')
        × (t' -ℤ h' ≤ℤ t -ℤ h +ℤ pos n)
  run-Ledger_drift i j n h t h' t' ss w positive r ledger =
      let (low, high) = drift env i j n h t h' t' ss positive ledger in
      (run-Ledger env i j n h t h' t' ss w positive r ledger, low, high)
