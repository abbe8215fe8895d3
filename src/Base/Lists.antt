-- ===== src/Base/Lists.antt =====
-- Lists measured and cut by native numbers, under the library's names.
use Prim.Native.Nat.{ℕ, zero, suc, ◌+◌, ◌-◌, ◌≤◌, min}
use mathlib.Core.Path.{◌≡◌, refl, ap, ◌∙◌}
use mathlib.Core.List.{List, [], ◌∷◌, ◌++◌}
use native.Mathlib.Omega.{arith}

module _ {ℓ} {A : Type ℓ} where
  abbrev pub length : List A → ℕ
  length [] = 0
  length (x ∷ xs) = suc (length xs)

  unfoldable pub take : ℕ → List A → List A
  take zero xs = []
  take (suc n) [] = []
  take (suc n) (x ∷ xs) = x ∷ take n xs

  unfoldable pub drop : ℕ → List A → List A
  drop zero xs = xs
  drop (suc n) [] = []
  drop (suc n) (x ∷ xs) = drop n xs

  abbrev pub replicate : ℕ → A → List A
  replicate zero a = []
  replicate (suc n) a = a ∷ replicate n a

  pub length-append : (xs ys : List A) → length (xs ++ ys) ≡ length xs + length ys
  length-append [] ys = omega arith
  length-append (x ∷ xs) ys = omega (arith, length-append xs ys)

  pub length-take : (n : ℕ) (xs : List A) → length (take n xs) ≡ min n (length xs)
  unfolding take
  length-take zero xs = omega arith
  length-take (suc n) [] = omega arith
  length-take (suc n) (x ∷ xs) = omega (arith, length-take n xs)

  pub length-drop : (n : ℕ) (xs : List A) → length (drop n xs) ≡ length xs - n
  unfolding drop
  length-drop zero xs = omega arith
  length-drop (suc n) [] = omega arith
  length-drop (suc n) (x ∷ xs) = omega (arith, length-drop n xs)

  pub length-replicate : (n : ℕ) (a : A) → length (replicate n a) ≡ n
  length-replicate zero a = refl
  length-replicate (suc n) a = ap suc (length-replicate n a)

  pub take-append-drop : (n : ℕ) (xs : List A) → take n xs ++ drop n xs ≡ xs
  unfolding take drop
  take-append-drop zero xs = refl
  take-append-drop (suc n) [] = refl
  take-append-drop (suc n) (x ∷ xs) = ap (λ (t : List A). x ∷ t) (take-append-drop n xs)

  -- A field of known length in front of the rest.
  pub take-append : (xs ys : List A) (n : ℕ) → length xs ≡ n → take n (xs ++ ys) ≡ xs
  unfolding take
  take-append [] ys zero h = refl
  take-append [] ys (suc n) h = absurd (omega arith)
  take-append (x ∷ xs) ys zero h = absurd (omega arith)
  take-append (x ∷ xs) ys (suc n) h = ap (λ (t : List A). x ∷ t) (take-append xs ys n (omega arith))

  pub drop-append : (xs ys : List A) (n : ℕ) → length xs ≡ n → drop n (xs ++ ys) ≡ ys
  unfolding drop
  drop-append [] ys zero h = refl
  drop-append [] ys (suc n) h = absurd (omega arith)
  drop-append (x ∷ xs) ys zero h = absurd (omega arith)
  drop-append (x ∷ xs) ys (suc n) h = drop-append xs ys n (omega arith)

  pub drop_zero : (xs : List A) → drop 0 xs ≡ xs
  unfolding drop
  drop_zero xs = refl

  drop-append_le :
      (xs ys : List A) (n : ℕ) → length xs ≤ n → drop n (xs ++ ys) ≡ drop (n - length xs) ys
  unfolding drop
  drop-append_le [] ys n h = ap (λ (t : ℕ). drop t ys) (omega arith)
  drop-append_le (x ∷ xs) ys zero h = absurd (omega arith)
  drop-append_le (x ∷ xs) ys (suc n) h =
      drop-append_le xs ys n (omega arith) ∙ ap (λ (t : ℕ). drop t ys) (omega arith)

  pub drop-append_add :
      (xs ys : List A) (n k : ℕ) → length xs ≡ n → drop (n + k) (xs ++ ys) ≡ drop k ys
  drop-append_add xs ys n k h =
      drop-append_le xs ys (n + k) (omega arith) ∙ ap (λ (t : ℕ). drop t ys) (omega arith)

  pub drop-add :
      (n k : ℕ) (xs ys zs : List A) → drop n xs ≡ ys ++ zs → length ys ≡ k → drop (n + k) xs ≡ zs
  unfolding drop
  drop-add zero k xs ys zs e h =
      ap (λ (t : ℕ). drop t xs) (omega arith) ∙ ap (drop k) e ∙ drop-append ys zs k h
  drop-add (suc n) k [] [] zs e h =
      ap (λ (t : ℕ). drop t []) {x = suc n + k} {y = suc (n + k)} (omega arith) ∙ e
  drop-add (suc n) k [] (y ∷ ys) zs e h = cc
  drop-add (suc n) k (x ∷ xs) ys zs e h =
      ap (λ (t : ℕ). drop t (x ∷ xs)) {x = suc n + k} {y = suc (n + k)} (omega arith)
      ∙ drop-add n k xs ys zs e h

  pub eq-nil_of_length : (xs : List A) → length xs ≤ 0 → xs ≡ []
  eq-nil_of_length [] h = refl
  eq-nil_of_length (x ∷ xs) h = absurd (omega arith)

  pub take_all : (xs : List A) (n : ℕ) → length xs ≡ n → take n xs ≡ xs
  unfolding take
  take_all [] zero h = refl
  take_all [] (suc n) h = refl
  take_all (x ∷ xs) zero h = absurd (omega arith)
  take_all (x ∷ xs) (suc n) h = ap (λ (t : List A). x ∷ t) (take_all xs n (omega arith))
