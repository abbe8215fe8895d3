-- ===== src/Vaults/Digits.antt =====
-- The decimal digits in the names of the module accounts (keeper/msg_server_vaults.go,
-- `ToUserVaultPositionModuleAccount`).
use dollar.Base.{
  ℕ, zero, suc, ◌+◌, ◌-◌, ◌*◌, ◌/◌, ◌%◌, ◌^◌, ◌≤◌, ◌<◌, ◌≡◌, refl, sym, ap, ◌∙◌, [], ◌∷◌, ◌==◌,
  arith, Bool-cases, inl, inr,
}
use native.Mathlib.Nat.{pow-succ'}
use dollar.Base.Int.{ℤ, pos, negsuc, pos_part, neg_part}
use dollar.Base.Bytes.{Bytes}
use dollar.Vaults.Account.{digits, itoa}

-- The number that digits stand for.
abbrev pub read_digits : ℕ → Bytes → ℕ
read_digits n [] = n
read_digits n (c ∷ s) = read_digits (n * 10 + (c - 48)) s

-- An integer of 64 bits.
abbrev pub IsInt64 : ℤ → Type 0
IsInt64 t = pos_part t + neg_part t ≤ 2 ^ 63

tenth : (n rounds : ℕ) → n < 10 ^ suc rounds → n / 10 < 10 ^ rounds
tenth n rounds h =
    let power : 10 ^ suc rounds ≡ 10 * 10 ^ rounds = pow-succ' 10 rounds in omega arith

read-digits :
    (rounds n : ℕ) (acc : Bytes)
    → n < 10 ^ rounds
    → read_digits 0 (digits rounds n acc) ≡ read_digits n acc
unfolding digits
read-digits zero n acc h = ap (λ (k : ℕ). read_digits k acc) (omega arith)
read-digits (suc rounds) n acc h = elim (Bool-cases (n / 10 == 0)) [
  | inl c ↦ rw c (ap (λ (k : ℕ). read_digits k acc) (ground arith))
  | inr c ↦ rw c (
      read-digits rounds (n / 10) ((48 + n % 10) ∷ acc) (tenth n rounds h)
      ∙ ap (λ (k : ℕ). read_digits k acc) (omega arith))
]

positive : (rounds : ℕ) {n : ℕ} → n < 10 ^ suc rounds → 0 < n / 10 → 0 < rounds
positive zero h q = omega arith
positive (suc rounds) h q = omega arith

digits_more :
    (rounds more n : ℕ) (acc : Bytes)
    → n < 10 ^ rounds
    → 0 < rounds
    → digits (rounds + more) n acc ≡ digits rounds n acc
unfolding digits
digits_more zero more n acc h some_round = absurd (omega arith)
digits_more (suc rounds) more n acc h some_round =
    let further : suc rounds + more ≡ suc (rounds + more) = omega arith in
    rw further (elim (Bool-cases (n / 10 == 0)) [
      | inl c ↦ rw c refl
      | inr c ↦ rw c (
          digits_more rounds more (n / 10) ((48 + n % 10) ∷ acc) (tenth n rounds h)
            (positive rounds h (ground arith)))
    ])

-- For every number below 10^20, which all numbers of 64 bits are, the 20 rounds suffice: further
-- rounds give the same digits, and the digits read back as the number.
digits_enough :
    (n more : ℕ)
    → n < 10 ^ 20
    → (digits (20 + more) n [] ≡ digits 20 n []) × (read_digits 0 (digits 20 n []) ≡ n)
digits_enough n more h = (digits_more 20 more n [] h (omega arith), read-digits 20 n [] h)

abbrev first : Bytes → ℕ
first [] = 48
first (c ∷ s) = c

-- Digits are no minus sign.
first-digits : (rounds n : ℕ) (acc : Bytes) → 48 ≤ first acc → 48 ≤ first (digits rounds n acc)
unfolding digits
first-digits zero n acc h = h
first-digits (suc rounds) n acc h = elim (Bool-cases (n / 10 == 0)) [
  | inl c ↦ rw c (omega arith)
  | inr c ↦ rw c (first-digits rounds (n / 10) ((48 + n % 10) ∷ acc) (omega arith))
]

no_minus : (n : ℕ) (s : Bytes) → digits 20 n [] ≡ b'-' ∷ s → ⊥
no_minus n s e =
    let large : 48 ≤ first (digits 20 n []) = first-digits 20 n [] (omega arith) in
    let minus : first (digits 20 n []) ≡ 45 = ap first e in omega arith

digits-injective : (n m : ℕ) → n < 10 ^ 20 → m < 10 ^ 20 → digits 20 n [] ≡ digits 20 m [] → n ≡ m
digits-injective n m h k e =
    sym (read-digits 20 n [] h) ∙ ap (read_digits 0) e ∙ read-digits 20 m [] k

abbrev rest_of : Bytes → Bytes
rest_of [] = []
rest_of (c ∷ s) = s

pub itoa-injective : (t t' : ℤ) → IsInt64 t → IsInt64 t' → itoa t ≡ itoa t' → t ≡ t'
unfolding itoa
itoa-injective (pos n) (pos m) h k e = ap pos (digits-injective n m (omega arith) (omega arith) e)
itoa-injective (pos n) (negsuc m) h k e = absurd (no_minus n (digits 20 (m + 1) []) e)
itoa-injective (negsuc n) (pos m) h k e = absurd (no_minus m (digits 20 (n + 1) []) (sym e))
itoa-injective (negsuc n) (negsuc m) h k e =
    let same = digits-injective (n + 1) (m + 1) (omega arith) (omega arith) (ap rest_of e) in
    ap negsuc (omega arith)
