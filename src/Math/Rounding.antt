-- ===== src/Math/Rounding.antt =====
-- Rounding of amounts and principals at a positive index: keeper/math.go.
use dollar.Base.{◌⊎◌, ℕ, ◌+◌, ◌-◌, ◌*◌, ◌/◌, ◌≤◌, ◌<◌, ◌≡◌, ◌↔◌, refl, arith}
use dollar.Base.Int.{pos, ◌+ℤ◌, ◌-ℤ◌, ◌*ℤ◌, quo}
use native.Mathlib.Nat.{le-div_iff_mul-le, div-lt_iff_lt-mul, add-div_right}
use dollar.Types.{ok}
use dollar.Math.{
  quo_raw, get_principal_amount_rounded_up, get_principal_amount_rounded_down, get_present_amount,
}

abbrev unit : ℕ
unit = 1_000_000_000_000

-- The two principals of an amount, as natural numbers.
abbrev pub down : ℕ → ℕ → ℕ
down a i = a * unit / i

abbrev pub up : ℕ → ℕ → ℕ
up a i = (a * unit + i - 1) / i

div_mono : (n m i : ℕ) → 0 < i → n ≤ m → n / i ≤ m / i
div_mono n m i h le =
    (le-div_iff_mul-le h).1
      (omega (arith, (le-div_iff_mul-le {k = i} {x = n / i} {y = n} h).0 (omega arith)))

pub up-down : (a i : ℕ) → 0 < i → (d : ℕ) × (d ≤ 1) × (up a i ≡ down a i + d)
up-down a i h = (
  up a i - down a i,
  omega (
    arith,
    div_mono (a * unit + i - 1) (a * unit + i) i h (omega arith),
    add-div_right (a * unit) h,
  ),
  omega (arith, div_mono (a * unit) (a * unit + i - 1) i h (omega arith)),
)

-- The three functions on natural arguments, as formulas over ℕ.
pub rounded_down_formula :
    (a i : ℕ) → 0 < i → get_principal_amount_rounded_down (pos a) (pos i) ≡ ok (pos (a * unit / i))
unfolding get_principal_amount_rounded_down quo_raw ◌*ℤ◌ quo
rounded_down_formula a i h = ground arith

pub rounded_up_formula :
    (a i : ℕ)
    → 0 < i
    → get_principal_amount_rounded_up (pos a) (pos i) ≡ ok (pos ((a * unit + i - 1) / i))
unfolding get_principal_amount_rounded_up quo_raw ◌*ℤ◌ ◌+ℤ◌ ◌-ℤ◌ quo
rounded_up_formula a i h = ground arith

pub present_formula : (p i : ℕ) → get_present_amount (pos p) (pos i) ≡ ok (pos (p * i / unit))
unfolding get_present_amount quo_raw ◌*ℤ◌ quo
present_formula p i = ground arith

least : (a i p : ℕ) → 0 < i → (a ≤ p * i / unit) ↔ (up a i ≤ p)
least a i p h = (
  (λ q. omega (
    arith,
    (div-lt_iff_lt-mul {x = a * unit + i - 1} {y = p + 1} h).1
        (omega (arith, (le-div_iff_mul-le {k = unit} {x = a} {y = p * i} (omega arith)).0 q)),
  )),
  (λ q.
      (le-div_iff_mul-le {k = unit} {x = a} {y = p * i} (omega arith)).1
        (omega (arith, (div-lt_iff_lt-mul {x = a * unit + i - 1} {y = p + 1} h).0 (omega arith)))),
)

-- At a positive index, the principal of an amount that is rounded up exists, and it is the least
-- whose present amount covers the amount: any principal's present amount is at least the amount
-- exactly when the principal is at least this one.
pub rounded_up_least :
    (a i p : ℕ)
    → 0 < i
    → (u x : ℕ) × (get_principal_amount_rounded_up (pos a) (pos i) ≡ ok (pos u))
      × (get_present_amount (pos p) (pos i) ≡ ok (pos x))
      × ((a ≤ x) ↔ (u ≤ p))
rounded_up_least a i p h =
    (up a i, p * i / unit, rounded_up_formula a i h, present_formula p i, least a i p h)

covered : (n a i : ℕ) → 0 < i → n ≡ a * unit → n / i * i / unit ≤ a
covered n a i h e = omega (
  arith,
  (div-lt_iff_lt-mul {k = unit} {x = n / i * i} {y = a + 1} (omega arith)).1
      (omega (arith, (le-div_iff_mul-le {k = i} {x = n / i} {y = n} h).0 (omega arith), e)),
)

-- At a positive index, the principal of an amount that is rounded down exists, its present amount
-- does not exceed the amount, and the principal rounded up is the same or one more.
pub rounded_down_covered :
    (a i : ℕ)
    → 0 < i
    → (n u x : ℕ) × (get_principal_amount_rounded_down (pos a) (pos i) ≡ ok (pos n))
      × (get_principal_amount_rounded_up (pos a) (pos i) ≡ ok (pos u))
      × (get_present_amount (pos n) (pos i) ≡ ok (pos x))
      × (x ≤ a)
      × ((u ≡ n) ⊎ (u ≡ n + 1))
rounded_down_covered a i h =
    let (d, small, e) = up-down a i h in
    (
      down a i,
      up a i,
      down a i * i / unit,
      rounded_down_formula a i h,
      rounded_up_formula a i h,
      present_formula (down a i) i,
      covered (a * unit) a i h refl,
      ground (arith, e, small),
    )

-- The principal of an amount that is rounded up, added to a total, adds the amount to its worth at
-- least.
pub issue_worth : (t a i : ℕ) → 0 < i → t * i / unit + a ≤ (t + up a i) * i / unit
issue_worth t a i h =
    let worth : a * unit ≤ up a i * i =
      (le-div_iff_mul-le {k = unit} {x = a} {y = up a i * i} (omega arith)).0
        ((least a i (up a i) h).1 (omega arith)) in
    let old : t * i / unit * unit ≤ t * i =
      (le-div_iff_mul-le {k = unit} {x = t * i / unit} {y = t * i} (omega arith)).0 (omega arith) in
    (le-div_iff_mul-le {k = unit} {x = t * i / unit + a} {y = (t + up a i) * i} (omega arith)).1
      (grind (arith, worth, old))

-- Taken off a total, it takes the amount off the worth, and at most one unit of the index and one
-- more.
pub redeem_worth :
    (t a i : ℕ) → 0 < i → up a i ≤ t → t * i / unit ≤ (t - up a i) * i / unit + a + (i / unit + 1)
redeem_worth t a i h le =
    let r = (t - up a i) * i in
    let split : t * i ≡ r + up a i * i = grind (arith, le) in
    let small : up a i * i ≤ a * unit + i - 1 =
      (le-div_iff_mul-le {k = i} {x = up a i} {y = a * unit + i - 1} h).0 (omega arith) in
    let old : t * i / unit * unit ≤ t * i =
      (le-div_iff_mul-le {k = unit} {x = t * i / unit} {y = t * i} (omega arith)).0 (omega arith) in
    omega (arith, split, small, old)
