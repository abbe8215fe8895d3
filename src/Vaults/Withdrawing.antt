-- ===== src/Vaults/Withdrawing.antt =====
-- What `Lock` leaves for an unlock to take (keeper/msg_server_vaults.go).
use dollar.Base.{
  ℕ, ◌<◌, ◌≡◌, refl, ◌&&◌, true, none, some, List, [], ◌∷◌, arith, if◌then◌else◌, Bool-cases, inl,
  inr, false,
}
use dollar.Base.Int.{ℤ, pos, ◌+ℤ◌, ◌≤ℤ◌, ◌<ℤ◌, eqb_ℤ, ltb_ℤ, is_positive, int_laws}
use dollar.Base.Bytes.{Bytes, bytes_eq, bytes_eq_refl}
use dollar.Base.Key.{int_key, bytes_key, pair_key}
use dollar.Base.Map.{Map, lookup, insert}
use dollar.Base.Map.Laws.{weigh, weigh-insert}
use dollar.Types.{ok}
use dollar.Types.Store.{World, PositionKey, Position, PositionEntry}
use dollar.Types.Env.{Env}
use dollar.State.Vaults.{get_vaults_positions_by_provider_and_vault}
use dollar.Vaults.Account.{vault_exists}
use dollar.Vaults.Lock.{lock}
use dollar.Vaults.Unlock.{total_amount, check_unlock, key_of}
use dollar.Vaults.Removal.{NonNegative, total_amount-nonneg}
use dollar.Vaults.Backing.Shrinking.{Books, IsCovering}
use dollar.Vaults.Backing.Listing.{Listed, get_vaults_positions_by_provider_and_vault-Listed}
use dollar.Vaults.Backing.Unlocking.{IsBacked}
use dollar.Vaults.Backing.Locking.{lock-Locked}

-- What a provider has in a vault.
abbrev pub held_by : Bytes → ℤ → Map PositionKey Position → ℤ
held_by addr vault m = total_amount (get_vaults_positions_by_provider_and_vault addr vault m)

module _ (addr : Bytes) (vault : ℤ) where
  -- The amount of a position in this vault, and nothing of another.
  abbrev own : PositionKey → Position → ℤ
  own key p = if bytes_eq key.0 addr && eqb_ℤ key.1.0 vault then p.amount else pos 0

  held_by-weigh : (m : Map PositionKey Position) → held_by addr vault m ≡ weigh own m
  unfolding get_vaults_positions_by_provider_and_vault total_amount weigh
  held_by-weigh [] = refl
  held_by-weigh ((k, p) ∷ m) = elim (Bool-cases (bytes_eq k.0 addr && eqb_ℤ k.1.0 vault)) [
    | inl c ↦ rw (c, held_by-weigh m) refl
    | inr c ↦ rw (c, held_by-weigh m) (omega int_laws)
  ]

  -- A new position adds its amount.
  held_by-insert :
      (time : ℤ) (p : Position) (m : Map PositionKey Position)
      → lookup {K = PositionKey} (addr, (vault, time)) m ≡ none
      → held_by addr vault (insert {K = PositionKey} (addr, (vault, time)) p m)
        ≡ held_by addr vault m +ℤ p.amount
  held_by-insert time p m fresh =
      let key : PositionKey = (addr, (vault, time)) in
      let mine : own key p ≡ p.amount = ground (arith, bytes_eq_refl addr) in
      let moved = rw fresh at (weigh-insert own key p m) in
      rw (held_by-weigh m, held_by-weigh (insert key p m)) (grind (int_laws, moved, mine))

  Listed-NonNegative :
      (es : List PositionEntry) (m : Map PositionKey Position)
      → ((key : PositionKey) (p : Position) → lookup key m ≡ some p → IsCovering p)
      → Listed vault es m
      → NonNegative es
  Listed-NonNegative [] m covering l = tt
  Listed-NonNegative (e ∷ es) m covering (found, _, _, l) =
      let c = covering (key_of e) _ found in
      (rw c.of_amount (omega arith), Listed-NonNegative es m covering l)

  held_by-nonneg :
      (m : Map PositionKey Position) (total : ℤ) → Books m total → pos 0 ≤ℤ held_by addr vault m
  held_by-nonneg m total books = total_amount-nonneg _ (
      Listed-NonNegative _ m books.covering
        (get_vaults_positions_by_provider_and_vault-Listed addr vault m books.distinct books.timed))

module _ {Chain Decimal : Type 0} (env : Env Chain Decimal) (signer addr : Bytes) (vault amount : ℤ)
    (w : World Chain) where
  check_unlock_ok :
      env.string_to_bytes signer ≡ some addr
      → pos 0 <ℤ amount
      → vault_exists vault ≡ true
      → amount ≤ℤ held_by addr vault w.vaults.positions
      → env.vaults_minimum_unlock ≤ℤ amount
      → check_unlock env signer vault amount w
        ≡ (ok (addr, get_vaults_positions_by_provider_and_vault addr vault w.vaults.positions), w)
  unfolding check_unlock
  check_unlock_ok valid positive known enough least =
      let more : is_positive amount ≡ true = ground arith in
      let covered : ltb_ℤ (held_by addr vault w.vaults.positions) amount ≡ false = ground arith in
      let large : ltb_ℤ amount env.vaults_minimum_unlock ≡ false = ground arith in
      rw (valid, more, known, covered, large) refl

module _ {Chain Decimal : Type 0} (env : Env Chain Decimal) (signer : Bytes) (vault amount : ℤ)
    (i : ℕ) (w w' : World Chain) where
  -- A lock that succeeds, at a positive index, over books that are kept, and where the minimum of a
  -- lock is positive and not below that of an unlock: the signer's positions in the vault then hold
  -- the amount more than before, and an unlock of that amount by the signer passes all checks of
  -- the amount and the vault.
  pub lock-check_unlock :
      0 < i
      → w.dollar.index ≡ some (pos i)
      → IsBacked w
      → pos 0 <ℤ env.vaults_minimum_lock
      → env.vaults_minimum_unlock ≤ℤ env.vaults_minimum_lock
      → lock env signer vault amount w ≡ (ok tt, w')
      → (addr : Bytes) × (env.string_to_bytes signer ≡ some addr)
        × (held_by addr vault w'.vaults.positions ≡ held_by addr vault w.vaults.positions +ℤ amount)
        × (check_unlock env signer vault amount w' ≡ (
          ok (addr, get_vaults_positions_by_provider_and_vault addr vault w'.vaults.positions),
          w',
        ))
  lock-check_unlock h at books low above run =
      let m = w.vaults.positions in
      let t = w.vaults.total_flexible_principal in
      let (addr, p, (valid, least, known, fresh), _, (now, _)) =
        (lock-Locked env signer vault amount m t i).ensures w ((refl, refl), at) tt w' run in
      let added : held_by addr vault w'.vaults.positions ≡ held_by addr vault m +ℤ amount =
        rw now (held_by-insert addr vault env.unix_time _ m fresh) in
      let before : pos 0 ≤ℤ held_by addr vault m = held_by-nonneg addr vault m _ books in
      (
        addr,
        valid,
        added,
        check_unlock_ok env signer addr vault amount w' valid (omega (arith, low, least)) known
            (grind (int_laws, added, before)) (omega (arith, above, least)),
      )
