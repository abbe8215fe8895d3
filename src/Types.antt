-- ===== src/Types.antt =====
-- What the parts of the keeper share: outcomes of a call, and the monad of the handlers.
pub mod Outcome
pub mod Store
pub mod Env
pub mod Rules
pub use Outcome.{
  Error, not_found, overflow, malformed, external, invalid_authority, paused, decreasing_index,
  no_owner, not_owner, same_owner, portal_paused, invalid_peer, invalid_bridge_path,
  invalid_message, invalid_recipient, vaults_invalid_authority, invalid_amount, invalid_vault_type,
  invalid_pause_type, action_paused, yield_transfer, wrong_destination, bad_address,
  unknown_identifier, routers, ibc_disabled, invalid_request, no_recipient, Result, ok, err, panic,
}
use dollar.Base.{Bool, true, false, Option, none, some, if◌then◌else◌, ◌≡◌, refl}

-- A call on the state `W`. What was written before an error or a panic stays written, until a
-- caller discards it.
abbrev pub M : Type 0 → Type 0 → Type 0
M W A = W → Result A × W

module _ {W : Type 0} where
  abbrev pub pure : {A : Type 0} → A → M W A
  pure a w = (ok a, w)

  abbrev pub throw : {A : Type 0} → Error → M W A
  throw e w = (err e, w)

  abbrev pub lift : {A : Type 0} → Result A → M W A
  lift r w = (r, w)

  abbrev pub gets : {A : Type 0} → (W → A) → M W A
  gets f w = (ok (f w), w)

  -- The value of an item of the store, or not found.
  abbrev pub get_item : {A : Type 0} → (W → Option A) → M W A
  get_item f w = elim (f w) [ none ↦ (err not_found, w) | some a ↦ (ok a, w) ]

  abbrev pub modify : (W → W) → M W (Unit {0})
  modify f w = (ok tt, f w)

  -- The continuation runs on a value only.
  abbrev pub bind : {A B : Type 0} → Result A × W → (A → M W B) → Result B × W
  bind (ok a, w) f = f a w
  bind (err e, w) f = (err e, w)
  bind (panic, w) f = (panic, w)

infixl 5 ◌>>=◌ ◌>>◌
abbrev pub ◌>>=◌ : {W A B : Type 0} → M W A → (A → M W B) → M W B
◌>>=◌ m f w = bind (m w) f

abbrev pub ◌>>◌ : {W B : Type 0} → M W (Unit {0}) → M W B → M W B
m >> k = m >>= λ _. k

abbrev pub skip : {W : Type 0} → M W (Unit {0})
skip = pure tt

-- `if c { return e }`
abbrev pub throw_if : {W : Type 0} → Bool → Error → M W (Unit {0})
throw_if c e = if c then throw e else skip

abbrev pub when : {W : Type 0} → Bool → M W (Unit {0}) → M W (Unit {0})
when c m = if c then m else skip

abbrev pub or_throw : {W A : Type 0} → Option A → Error → M W A
or_throw none e = throw e
or_throw (some a) e = pure a

abbrev pub drop_error : {W A : Type 0} → Result A × W → Result (Unit {0}) × W
drop_error (ok a, w) = (ok tt, w)
drop_error (err e, w) = (ok tt, w)
drop_error (panic, w) = (panic, w)

-- `_, err := m` where the code drops the error: the writes stay, a panic goes on.
abbrev pub ignore : {W A : Type 0} → M W A → M W (Unit {0})
ignore m w = drop_error (m w)

-- The call keeps a predicate of the state, whatever its outcome.
pub record Preserves {W A : Type 0} (P : W → Type 0) (m : M W A) : Type 0 where
  pub keeps : (w : W) → P w → P (m w).1

pub >>=-Preserves :
    {W A B : Type 0} (P : W → Type 0) (m : M W A) (f : A → M W B)
    → Preserves P m
    → ((a : A) → Preserves P (f a))
    → Preserves P (m >>= f)
>>=-Preserves {W} {A} {B} P m f hm hf = record { keeps = λ w p. go (m w) (hm.keeps w p) }
  where
    go : (r : Result A × W) → P r.1 → P (bind r f).1
    go (ok a, w₁) q = (hf a).keeps w₁ q
    go (err e, w₁) q = q
    go (panic, w₁) q = q

pub throw_if-Preserves :
    {W : Type 0} (P : W → Type 0) (c : Bool) (e : Error) → Preserves P (throw_if {W = W} c e)
throw_if-Preserves P true e = record { keeps = λ w p. p }
throw_if-Preserves P false e = record { keeps = λ w p. p }

pub or_throw-Preserves :
    {W A : Type 0} (P : W → Type 0) (o : Option A) (e : Error) → Preserves P (or_throw {W = W} o e)
or_throw-Preserves P none e = record { keeps = λ w p. p }
or_throw-Preserves P (some a) e = record { keeps = λ w p. p }

pub get_item-Preserves :
    {W A : Type 0} (P : W → Type 0) (f : W → Option A) → Preserves P (get_item f)
get_item-Preserves {W} {A} P f = record { keeps = λ w p. go w p (f w) }
  where
    go :
        (w : W)
        → P w
        → (o : Option A)
        → P (elim o as (λ _. Result A × W) [ none ↦ (err not_found, w) | some a ↦ (ok a, w) ]).1
    go w p none = p
    go w p (some a) = p

-- A call that writes nothing keeps every predicate.
pub unchanged-Preserves :
    {W A : Type 0} (P : W → Type 0) (f : W → Result A) → Preserves P (λ w. (f w, w))
unchanged-Preserves P f = record { keeps = λ w p. p }

pub get_item-some :
    {W A : Type 0} (f : W → Option A) (w : W) (a : A) → f w ≡ some a → get_item f w ≡ (ok a, w)
get_item-some f w a e = rw (e, get_item) refl

-- One call after another: the second starts where the first one ends.
pub >>_then :
    {W B : Type 0} (m : M W (Unit {0})) (k : M W B) (w w₁ : W) (r : Result B × W)
    → m w ≡ (ok tt, w₁)
    → k w₁ ≡ r
    → (m >> k) w ≡ r
>>_then m k w w₁ r e f = rw e f

pub >>=-eq-ok :
    {W A B : Type 0} (m : M W A) (f : A → M W B) (w w' : W) (b : B)
    → (m >>= f) w ≡ (ok b, w')
    → (a : A) × (w₁ : W) × (m w ≡ (ok a, w₁)) × (f a w₁ ≡ (ok b, w'))
>>=-eq-ok {W} {A} {B} m f w w' b = go (m w) refl
  where
    go :
        (r : Result A × W)
        → m w ≡ r
        → bind r f ≡ (ok b, w')
        → (a : A) × (w₁ : W) × (m w ≡ (ok a, w₁)) × (f a w₁ ≡ (ok b, w'))
    go (ok a, w₁) e h = (a, w₁, e, h)
    go (err x, w₁) e h = cc
    go (panic, w₁) e h = cc
