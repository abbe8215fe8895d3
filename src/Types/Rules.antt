-- ===== src/Types/Rules.antt =====
-- Rules for the do blocks of the handlers: what a call keeps, and what holds where it returns.
use dollar.Base.{◌≡◌, refl, ap, Bool, true, false, if◌then◌else◌}
use dollar.Types.{
  M, Result, ok, err, panic, bind, pure, modify, when, lift, Preserves, >>=-Preserves,
  unchanged-Preserves, ◌>>=◌,
}

module _ {W : Type 0} (P : W → Type 0) where
  pub bind-Preserves :
      {A B : Type 0} (m : M W A) {f : A → M W B}
      → Preserves P m
      → ((a : A) → Preserves P (f a))
      → Preserves P (m >>= f)
  bind-Preserves m {f} h k = >>=-Preserves P m f h k

  pub reads-Preserves : {A : Type 0} (f : W → Result A) → Preserves P (λ w. (f w, w))
  reads-Preserves f = unchanged-Preserves P f

  pub when-Preserves : (c : Bool) {m : M W (Unit {0})} → Preserves P m → Preserves P (when c m)
  when-Preserves true h = h
  when-Preserves false h = record { keeps = λ w e. e }

  pub if-Preserves :
      {A : Type 0} (c : Bool) {m k : M W A}
      → Preserves P m
      → Preserves P k
      → Preserves P (if c then m else k)
  if-Preserves true h k = h
  if-Preserves false h k = k

  -- The condition is known to fail where the second call runs.
  pub unless-Preserves :
      {A : Type 0} (c : Bool) {m k : M W A}
      → Preserves P m
      → (c ≡ false → Preserves P k)
      → Preserves P (if c then m else k)
  unless-Preserves true h k = h
  unless-Preserves false h k = k refl

-- From a state with `P`, a call that returns `a` ends in a state with `Q a`.
pub record Ensures {W A : Type 0} (P : W → Type 0) (m : M W A) (Q : A → W → Type 0) : Type 0 where
  pub ensures : (w : W) → P w → (a : A) (w' : W) → m w ≡ (ok a, w') → Q a w'

module _ {W : Type 0} (P : W → Type 0) where
  pub bind-Ensures :
      {A B : Type 0} (m : M W A) {f : A → M W B} (Q : A → W → Type 0) {R : B → W → Type 0}
      → Ensures P m Q
      → ((a : A) → Ensures (Q a) (f a) R)
      → Ensures P (m >>= f) R
  bind-Ensures {A} {B} m {f} Q {R} h k = record { ensures = λ w p b w' e. go w p b w' (m w) refl e }
    where
      go :
          (w : W)
          → P w
          → (b : B) (w' : W) (r : Result A × W) → m w ≡ r
          → bind r f ≡ (ok b, w')
          → R b w'
      go w p b w' (ok a, w₁) e e' = (k a).ensures w₁ (h.ensures w p a w₁ e) b w' e'
      go w p b w' (err x, w₁) e e' = cc
      go w p b w' (panic, w₁) e e' = cc

  pub keeps-Ensures : {A : Type 0} (m : M W A) → Preserves P m → Ensures P m (λ a. P)
  keeps-Ensures m h = record { ensures = λ w p a w' e. rw e at (h.keeps w p) }

  pub lift-Ensures : {A : Type 0} (r : Result A) → Ensures P (lift r) (λ a w. (r ≡ ok a) × P w)
  lift-Ensures r = record { ensures = λ w p a w' e. (ap (λ p. p.0) e, rw (ap (λ p. p.1) e) at p) }

  pub modify-Ensures :
      (f : W → W) {Q : W → Type 0} → ((w : W) → P w → Q (f w)) → Ensures P (modify f) (λ a. Q)
  modify-Ensures f h = record { ensures = λ w p a w' e. rw (ap (λ r. r.1) e) at (h w p) }

  pub pure-Ensures :
      {A : Type 0} (a : A) {Q : A → W → Type 0} → ((w : W) → P w → Q a w) → Ensures P (pure a) Q
  pure-Ensures a {Q} h = record {
    ensures = λ w p b w' e. let same : a ≡ b = cc in rw same at (rw (ap (λ r. r.1) e) at (h w p));
  }

  -- A fact that does not depend on the state is at hand in what follows.
  pub fact-Ensures :
      {A F : Type 0} (m : M W A) {Q : A → W → Type 0}
      → (F → Ensures P m Q)
      → Ensures (λ w. F × P w) m Q
  fact-Ensures m k = record { ensures = λ w (f, p) a w' e. (k f).ensures w p a w' e }
