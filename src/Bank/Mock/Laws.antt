-- ===== src/Bank/Mock/Laws.antt =====
-- The bank of utils/mocks/bank.go: supply and balances.
use dollar.Base.{ℕ, ◌≡◌, refl, false, inl, inr, Option-cases}
use dollar.Base.Int.{ℤ, pos, ◌+ℤ◌, ◌-ℤ◌, ◌≤ℤ◌, is_negative, int_laws}
use dollar.Base.Bytes.{Bytes, bytes_eq}
use dollar.Base.Key.{bytes_key}
use dollar.Base.Map.{lookup, insert}
use dollar.Base.Map.Laws.{sum-insert, lookup-insert_self, lookup-insert}
use dollar.Types.{ok}
use dollar.Bank.Mock.{Balances, get_balance, get_supply, mint_coins, burn_coins, move_coins}

-- A write of one balance changes the supply by the difference.
supply-insert :
    (account : Bytes) (n : ℤ) (c : Balances)
    → get_supply (insert account n c) +ℤ get_balance c account ≡ get_supply c +ℤ n
unfolding get_supply get_balance
supply-insert account n c = elim (Option-cases (lookup account c)) [
  | inl e ↦ rw e (rw e at (sum-insert (λ amount. amount) account n c))
  | inr (m, e) ↦ rw e (rw e at (sum-insert (λ amount. amount) account n c))
]

balance-insert_self :
    (account : Bytes) (n : ℤ) (c : Balances) → get_balance (insert account n c) account ≡ n
unfolding get_balance
balance-insert_self account n c = rw (lookup-insert_self account n c) refl

balance-insert_ne :
    (account other : Bytes) (n : ℤ) (c : Balances)
    → bytes_eq account other ≡ false
    → get_balance (insert account n c) other ≡ get_balance c other
unfolding get_balance
balance-insert_ne account other n c ne = rw (lookup-insert account other n c, ne) refl

pub mint_coins_lem :
    (account : Bytes) (n : ℕ) (c : Balances)
    → (c' : Balances) × (mint_coins account (pos n) c ≡ (ok tt, c'))
      × (get_supply c' ≡ get_supply c +ℤ pos n)
      × (get_balance c' account ≡ get_balance c account +ℤ pos n)
      × ((other : Bytes)
          → bytes_eq account other ≡ false
          → get_balance c' other ≡ get_balance c other)
unfolding mint_coins
mint_coins_lem account n c =
    let rest = get_balance c account +ℤ pos n in
    (
      insert account rest c,
      refl,
      grind (int_laws, supply-insert account rest c),
      balance-insert_self account rest c,
      λ other ne. balance-insert_ne account other rest c ne,
    )

pub burn_coins_lem :
    (account : Bytes) (n : ℕ) (c : Balances)
    → pos n ≤ℤ get_balance c account
    → (c' : Balances) × (burn_coins account (pos n) c ≡ (ok tt, c'))
      × (get_supply c' ≡ get_supply c -ℤ pos n)
unfolding burn_coins
burn_coins_lem account n c h =
    let rest = get_balance c account -ℤ pos n in
    let enough : is_negative rest ≡ false = grind (int_laws, h) in
    (insert account rest c, rw enough refl, grind (int_laws, supply-insert account rest c))

pub move_coins_lem :
    (sender recipient : Bytes) (n : ℕ) (c : Balances)
    → bytes_eq sender recipient ≡ false
    → pos n ≤ℤ get_balance c sender
    → (c' : Balances) × (move_coins sender recipient (pos n) c ≡ (ok tt, c'))
      × (get_supply c' ≡ get_supply c)
      × (get_balance c' recipient ≡ get_balance c recipient +ℤ pos n)
unfolding move_coins
move_coins_lem sender recipient n c ne h =
    let rest = get_balance c sender -ℤ pos n in
    let enough : is_negative rest ≡ false = grind (int_laws, h) in
    let c₁ = insert sender rest c in
    let more = get_balance c₁ recipient +ℤ pos n in
    let same : get_balance c₁ recipient ≡ get_balance c recipient =
      balance-insert_ne sender recipient rest c ne in
    (
      insert recipient more c₁,
      rw enough refl,
      grind (int_laws, supply-insert sender rest c, supply-insert recipient more c₁),
      rw (balance-insert_self recipient more c₁, same) refl,
    )
