-- ===== src/Vaults/Totals.antt =====
-- What `endVaultsSeasonOne` (keeper/msg_server_vaults.go) asks each user to unlock.
use dollar.Base.{
  ◌≡◌, ◌↔◌, refl, ap, ◌∙◌, none, some, List, [], ◌∷◌, true, false, arith, Bool-cases, Option-cases,
  inl, inr, ◌⊎◌, if◌then◌else◌,
}
use dollar.Base.Int.{ℤ, ◌+ℤ◌, int_laws, eqb_ℤ}
use dollar.Base.Bytes.{Bytes, bytes_eq, bytes_eq_iff, bytes_eq_refl, bytes_lt}
use dollar.Base.Key.{bytes_key}
use dollar.Base.Map.{Map, lookup}
use dollar.Base.Map.Entries.{Distinct}
use dollar.Types.Store.{PositionKey, Position, PositionEntry}
use dollar.Types.Env.{Env}
use dollar.State.Dollar.{or_zero}
use dollar.State.Vaults.{
  entry, flexible, get_vaults_positions, get_vaults_positions_by_provider_and_vault,
}
use dollar.Vaults.Unlock.{total_amount}
use dollar.Vaults.Season.{add_amount, collect_users, sort_user_in, sort_users}

add_amount-none :
    (a addr : Bytes) (amount : ℤ) (users : Map Bytes ℤ)
    → bytes_eq addr a ≡ false
    → lookup a users ≡ none
    → lookup a (add_amount addr amount users) ≡ none
unfolding add_amount lookup
add_amount-none a addr amount [] ne h = rw ne refl
add_amount-none a addr amount ((b, n) ∷ users) ne h = ground (
  arith,
  bytes_eq_iff b addr,
  bytes_eq_iff b a,
  bytes_eq_iff addr a,
  add_amount-none a addr amount users ne,
)

add_amount-Distinct :
    (addr : Bytes) (amount : ℤ) (users : Map Bytes ℤ)
    → Distinct users
    → Distinct (add_amount addr amount users)
unfolding add_amount lookup
add_amount-Distinct addr amount [] d = (refl, tt)
add_amount-Distinct addr amount ((b, n) ∷ users) (fresh, d) = elim (Bool-cases (bytes_eq b addr)) [
  | inl c ↦ rw c (fresh, d)
  | inr c ↦ rw c (
    add_amount-none b addr amount users (ground (arith, bytes_eq_iff b addr, bytes_eq_iff addr b))
        fresh,
    add_amount-Distinct addr amount users d,
  )
]

-- The user's own total rises, and no other one.
or_zero-add_amount :
    (a addr : Bytes) (amount : ℤ) (users : Map Bytes ℤ)
    → or_zero (lookup a (add_amount addr amount users))
      ≡ (if bytes_eq addr a then or_zero (lookup a users) +ℤ amount else or_zero (lookup a users))
unfolding add_amount lookup
or_zero-add_amount a addr amount [] = elim (Bool-cases (bytes_eq addr a)) [
  | inl c ↦ rw c (omega int_laws)
  | inr c ↦ rw c refl
]
or_zero-add_amount a addr amount ((b, n) ∷ users) = ground (
  arith,
  bytes_eq_iff b addr,
  bytes_eq_iff b a,
  bytes_eq_iff addr a,
  or_zero-add_amount a addr amount users,
)

add_own :
    (addr : Bytes) (amount : ℤ) (users : Map Bytes ℤ)
    → or_zero (lookup addr (add_amount addr amount users)) ≡ or_zero (lookup addr users) +ℤ amount
add_own addr amount users = rw (or_zero-add_amount addr addr amount users, bytes_eq_refl addr) refl

add_other :
    (a addr : Bytes) (amount : ℤ) (users : Map Bytes ℤ)
    → bytes_eq addr a ≡ false
    → or_zero (lookup a (add_amount addr amount users)) ≡ or_zero (lookup a users)
add_other a addr amount users ne = rw (or_zero-add_amount a addr amount users, ne) refl

-- Sorting keeps the total of each user.
lookup-sort_user_in :
    (a addr : Bytes) (n : ℤ) (users : Map Bytes ℤ)
    → lookup addr users ≡ none
    → lookup a (sort_user_in (addr, n) users) ≡ lookup a ((addr, n) ∷ users)
unfolding sort_user_in lookup
lookup-sort_user_in a addr n [] h = refl
lookup-sort_user_in a addr n ((b, m) ∷ users) h = ground (
  arith,
  bytes_eq_iff b addr,
  bytes_eq_iff b a,
  bytes_eq_iff addr a,
  lookup-sort_user_in a addr n users,
)

lookup-sort_users :
    (a : Bytes) (users : Map Bytes ℤ)
    → Distinct users
    → lookup a (sort_users users) ≡ lookup a users
unfolding sort_users lookup
lookup-sort_users a [] d = refl
lookup-sort_users a ((addr, n) ∷ users) (fresh, d) =
    let kept = lookup-sort_users a users d in
    lookup-sort_user_in a addr n (sort_users users) (lookup-sort_users addr users d ∙ fresh)
    ∙ rw kept refl

sort_user_in-Distinct :
    (addr : Bytes) (n : ℤ) (users : Map Bytes ℤ)
    → lookup addr users ≡ none
    → Distinct users
    → Distinct (sort_user_in (addr, n) users)
unfolding sort_user_in lookup
sort_user_in-Distinct addr n [] h d = (refl, tt)
sort_user_in-Distinct addr n ((b, m) ∷ users) h (fresh, d) = elim (Bool-cases (bytes_lt addr b)) [
  | inl c ↦ rw c (h, (fresh, d))
  | inr c ↦ rw c (
    lookup-sort_user_in b addr n users (ground arith)
        ∙ ground (arith, bytes_eq_iff addr b, bytes_eq_iff b addr),
    sort_user_in-Distinct addr n users (ground arith) d,
  )
]

sort_users-Distinct : (users : Map Bytes ℤ) → Distinct users → Distinct (sort_users users)
unfolding sort_users
sort_users-Distinct [] d = tt
sort_users-Distinct ((addr, n) ∷ users) (fresh, d) =
    sort_user_in-Distinct addr n (sort_users users) (lookup-sort_users addr users d ∙ fresh)
      (sort_users-Distinct users d)

shift : (x y a n z : ℤ) → z ≡ y +ℤ n → y ≡ x +ℤ a → z ≡ x +ℤ (a +ℤ n)
shift x y a n z e f = e ∙ rw f (omega int_laws)

module _ {Chain Decimal : Type 0} (env : Env Chain Decimal) where
  collect_users-Distinct :
      (positions : List PositionEntry) (users : Map Bytes ℤ)
      → Distinct users
      → Distinct (collect_users env positions users)
  unfolding collect_users
  collect_users-Distinct [] users d = d
  collect_users-Distinct (position ∷ positions) users d =
      elim (Bool-cases (eqb_ℤ position.vault flexible)) [
        | inr c ↦ rw c (collect_users-Distinct positions users d)
        | inl c ↦ elim (Option-cases (env.bytes_to_string position.address)) [
          | inl n ↦ rw (c, n) (collect_users-Distinct positions users d)
          | inr (addr, n) ↦
              rw (c, n)
                (collect_users-Distinct positions (add_amount addr position.amount users)
                  (add_amount-Distinct addr position.amount users d))
        ]
      ]

  -- The text is that of these bytes only.
  abbrev pub TextOf : Bytes → Bytes → Type 0
  TextOf addr provider = (b : Bytes) → (env.bytes_to_string b ≡ some addr) ↔ (b ≡ provider)

  other :
      (addr provider b a : Bytes)
      → TextOf addr provider
      → bytes_eq b provider ≡ false
      → env.bytes_to_string b ≡ some a
      → bytes_eq a addr ≡ false
  other addr provider b a text ne n = elim (Bool-cases (bytes_eq a addr)) [
    | inr c ↦ c
    | inl c ↦
        let same : a ≡ addr = (bytes_eq_iff a addr).0 c in
        let clash = (bytes_eq_iff b provider).1 ((text b).0 (rw same at n)) in cc
  ]

  collect_users_left :
      (position : PositionEntry) (positions : List PositionEntry) (users : Map Bytes ℤ)
      → (eqb_ℤ position.vault flexible ≡ false) ⊎ (env.bytes_to_string position.address ≡ none)
      → collect_users env (position ∷ positions) users ≡ collect_users env positions users
  unfolding collect_users
  collect_users_left position positions users (inl f) = rw f refl
  collect_users_left position positions users (inr n) =
      elim (Bool-cases (eqb_ℤ position.vault flexible)) [
        | inl c ↦ rw (c, n) refl
        | inr c ↦ rw c refl
      ]

  collect_users_added :
      (position : PositionEntry) (positions : List PositionEntry) (users : Map Bytes ℤ)
      (addr : Bytes)
      → eqb_ℤ position.vault flexible ≡ true
      → env.bytes_to_string position.address ≡ some addr
      → collect_users env (position ∷ positions) users
        ≡ collect_users env positions (add_amount addr position.amount users)
  unfolding collect_users
  collect_users_added position positions users addr f n = rw (f, n) refl

  collect_users-sum :
      (addr provider : Bytes) (m : Map PositionKey Position) (users : Map Bytes ℤ)
      → TextOf addr provider
      → or_zero (lookup addr (collect_users env (get_vaults_positions m) users))
        ≡ or_zero (lookup addr users)
          +ℤ total_amount (get_vaults_positions_by_provider_and_vault provider flexible m)
  unfolding get_vaults_positions get_vaults_positions_by_provider_and_vault total_amount
      collect_users
  collect_users-sum addr provider [] users text = omega int_laws
  collect_users-sum addr provider ((key, p) ∷ m) users text =
      let ps = get_vaults_positions m in
      let others = total_amount (get_vaults_positions_by_provider_and_vault provider flexible m) in
      let total = λ (u : Map Bytes ℤ). or_zero (lookup addr u) in
      let below = λ (u : Map Bytes ℤ). collect_users-sum addr provider m u text in
      elim (Bool-cases (bytes_eq key.0 provider)) [
        | inl b ↦
            let own : env.bytes_to_string key.0 ≡ some addr =
              (text key.0).1 ((bytes_eq_iff key.0 provider).0 b) in
            elim (Bool-cases (eqb_ℤ key.1.0 flexible)) [
              | inl f ↦
                  let step = ap total (collect_users_added (entry key p) ps users addr f own) in
                  let rest = below (add_amount addr p.amount users) in
                  shift _ _ p.amount others _ (step ∙ rest) (add_own addr p.amount users)
                  ∙ rw (b, f) refl
              | inr f ↦
                  ap total (collect_users_left (entry key p) ps users (inl f))
                  ∙ below users
                  ∙ rw (b, f) refl
            ]
        | inr b ↦ elim (Bool-cases (eqb_ℤ key.1.0 flexible)) [
          | inr f ↦
              ap total (collect_users_left (entry key p) ps users (inl f)) ∙ below users ∙ rw b refl
          | inl f ↦ elim (Option-cases (env.bytes_to_string key.0)) [
            | inl n ↦
                ap total (collect_users_left (entry key p) ps users (inr n))
                ∙ below users
                ∙ rw b refl
            | inr (a, n) ↦
                let step = ap total (collect_users_added (entry key p) ps users a f n) in
                let rest = below (add_amount a p.amount users) in
                let kept = add_other addr a p.amount users (other addr provider key.0 a text b n) in
                step ∙ rest ∙ ap (λ (n : ℤ). n +ℤ others) kept ∙ rw b refl
          ]
        ]
      ]

  -- Where the text of an address is that of these bytes only: the amount that the end of the first
  -- season asks the user of that text to unlock is what the user's flexible positions hold in
  -- total, which is what `Unlock` compares it with; and no user is asked twice.
  pub collect_users-total_amount :
      (addr provider : Bytes) (m : Map PositionKey Position)
      → TextOf addr provider
      → (or_zero (lookup addr (sort_users (collect_users env (get_vaults_positions m) [])))
          ≡ total_amount (get_vaults_positions_by_provider_and_vault provider flexible m))
        × Distinct (sort_users (collect_users env (get_vaults_positions m) []))
  unfolding lookup
  collect_users-total_amount addr provider m text =
      let users = collect_users env (get_vaults_positions m) [] in
      let distinct = collect_users-Distinct (get_vaults_positions m) [] tt in
      let sum = collect_users-sum addr provider m [] text in
      (
        rw (lookup-sort_users addr users distinct) (sum ∙ omega int_laws),
        sort_users-Distinct users distinct,
      )
