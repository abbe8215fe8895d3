-- ===== src/Vaults/Backing/Shrinking.antt =====
-- A position that shrinks or goes, against the total flexible principal.
use dollar.Base.{
  ℕ, ◌+◌, ◌-◌, ◌*◌, ◌/◌, ◌≤◌, ◌<◌, ◌≡◌, ◌≢◌, some, arith, Bool-cases, inl, inr, if◌then◌else◌,
}
use dollar.Base.Int.{ℤ, pos, negsuc, ◌-ℤ◌, ◌≤ℤ◌, leb_ℤ, eqb_ℤ, int_laws}
use dollar.Base.Key.{int_key, bytes_key, pair_key}
use dollar.Base.Map.{Map, lookup, insert, remove}
use dollar.Base.Map.Entries.{Distinct}
use dollar.Base.Map.Unique.{
  insert-Distinct, remove-Distinct, lookup-remove-some, lookup-insert-some,
}
use dollar.Base.Map.Laws.{weigh, weigh-insert, weigh-remove, lookup-insert_ne, lookup-remove_ne}
use native.Mathlib.Nat.{le-div_iff_mul-le}
use dollar.Types.Store.{PositionKey, Position, PositionEntry}
use dollar.Types.{ok}
use dollar.Math.{get_principal_amount_rounded_down}
use dollar.Math.Rounding.{down, rounded_down_formula}
use dollar.State.Vaults.{flexible}
use dollar.Vaults.Unlock.{key_of}

-- The principal of a position covers its amount at the index of its lock.
pub record IsCovering (p : Position) : Type 0 where
  pub amount : ℕ
  pub index : ℕ
  pub of_amount : p.amount ≡ pos amount
  pub of_index : p.index ≡ pos index
  pub positive : 0 < index
  pub covers : pos (down amount index) ≤ℤ p.principal

-- What a position adds to the principal of the flexible vault.
abbrev pub weight : PositionKey → Position → ℤ
weight key p = if eqb_ℤ key.1.0 flexible then p.principal else pos 0

-- The positions stand under their own times and cover their amounts, no key stands twice, and the
-- principals of the flexible ones come to the total at most.
pub record Books (m : Map PositionKey Position) (total : ℤ) : Type 0 where
  pub distinct : Distinct m
  pub timed : (key : PositionKey) (p : Position) → lookup key m ≡ some p → p.time ≡ key.1.1
  pub covering : (key : PositionKey) (p : Position) → lookup key m ≡ some p → IsCovering p
  pub held : weigh weight m ≤ℤ total

abbrev pub position_of : PositionEntry → Position
position_of e = record {
  principal = e.principal;
  index = e.index;
  amount = e.amount;
  time = e.time;
}

-- The positions after a round of an unlock.
abbrev pub shrunk : PositionEntry → ℤ → ℤ → Map PositionKey Position → Map PositionKey Position
shrunk e removed principal_removed m =
    if leb_ℤ e.amount removed
    then remove (key_of e) m
    else insert (key_of e)
        (record {
          principal = e.principal -ℤ principal_removed;
          index = e.index;
          amount = e.amount -ℤ removed;
          time = e.time;
        })
        m

div-mul-le : (n i : ℕ) → 0 < i → n / i * i ≤ n
div-mul-le n i h = (le-div_iff_mul-le {k = i} {x = n / i} {y = n} h).0 (omega arith)

-- Two amounts apart have no more principal, rounded down, than both together.
down-add : (r s i : ℕ) → 0 < i → down r i + down s i ≤ down (r + s) i
down-add r s i h =
    (le-div_iff_mul-le {k = i} {x = down r i + down s i} {y = (r + s) * 1_000_000_000_000} h).1 (
      grind (arith, div-mul-le (r * 1_000_000_000_000) i h, div-mul-le (s * 1_000_000_000_000) i h))

-- What a round takes from the total flexible principal.
abbrev pub spent : PositionEntry → ℤ → ℤ
spent e principal_removed = if eqb_ℤ e.vault flexible then principal_removed else pos 0

module _ (m : Map PositionKey Position) (total : ℤ) (books : Books m total) (e : PositionEntry)
    (stored : lookup (key_of e) m ≡ some (position_of e)) (r : ℕ) where
  -- What a round removes from a position.
  covered_rest :
      (a i : ℕ)
      → r ≤ a
      → e.amount ≡ pos a
      → 0 < i
      → pos (down a i) ≤ℤ e.principal
      → pos (down (a - r) i) ≤ℤ e.principal -ℤ pos (down r i)
  covered_rest a i le ea h c = grind (int_laws, down-add r (a - r) i h)

  module _ (a i : ℕ) (ea : e.amount ≡ pos a) (ei : e.index ≡ pos i) (h : 0 < i)
      (c : pos (down a i) ≤ℤ e.principal) (le : r ≤ a) where
    removed-Books : a ≡ r → Books (remove (key_of e) m) (total -ℤ spent e (pos (down r i)))
    removed-Books all = record {
      distinct = remove-Distinct (key_of e) m books.distinct;
      timed =
          λ key p q. books.timed key p (lookup-remove-some (key_of e) key p m books.distinct q).1;
      covering = λ key p q.
          books.covering key p (lookup-remove-some (key_of e) key p m books.distinct q).1;
      held =
          let gone = rw stored at (weigh-remove weight (key_of e) m) in
          grind (int_laws, gone, books.held, all);
    }

    abbrev rest : Position
    rest = record {
      principal = e.principal -ℤ pos (down r i);
      index = e.index;
      amount = e.amount -ℤ pos r;
      time = e.time;
    }

    rest-IsCovering : IsCovering rest
    rest-IsCovering = record {
      amount = a - r;
      index = i;
      of_amount = rw ea (omega (int_laws, le));
      of_index = ei;
      positive = h;
      covers = covered_rest a i le ea h c;
    }

    kept-Books : Books (insert (key_of e) rest m) (total -ℤ spent e (pos (down r i)))
    kept-Books = record {
      distinct = insert-Distinct (key_of e) rest m books.distinct;
      timed = λ key p q. elim (lookup-insert-some (key_of e) key rest p m q) [
        | inl (same, new) ↦ cc
        | inr (_, old) ↦ books.timed key p old
      ];
      covering = λ key p q. elim (lookup-insert-some (key_of e) key rest p m q) [
        | inl (same, new) ↦ rw new at rest-IsCovering
        | inr (_, old) ↦ books.covering key p old
      ];
      held =
          let moved = rw stored at (weigh-insert weight (key_of e) rest m) in
          grind (int_laws, moved, books.held);
    }

    natural-Books : Books (shrunk e (pos r) (pos (down r i)) m) (total -ℤ spent e (pos (down r i)))
    natural-Books = elim (Bool-cases (leb_ℤ e.amount (pos r))) [
      | inl full ↦ rw full (removed-Books (ground (arith, ea, le)))
      | inr part ↦ rw part kept-Books
    ]

  -- A round of an unlock keeps the books, with what it took from the total.
  round-Books :
      (p : ℤ)
      → pos r ≤ℤ e.amount
      → get_principal_amount_rounded_down (pos r) e.index ≡ ok p
      → Books (shrunk e (pos r) p m) (total -ℤ spent e p)
  round-Books p le q =
      let fair = books.covering (key_of e) (position_of e) stored in
      let down_is : get_principal_amount_rounded_down (pos r) e.index
          ≡ ok (pos (down r fair.index)) =
        rw fair.of_index (rounded_down_formula r fair.index fair.positive) in
      let same : pos (down r fair.index) ≡ p = cc in
      rw same at (
        natural-Books fair.amount fair.index fair.of_amount fair.of_index fair.positive fair.covers
          (ground (arith, fair.of_amount, le)))

pub shrunk-Books :
    (m : Map PositionKey Position) (total : ℤ) (e : PositionEntry) (x p : ℤ)
    → Books m total
    → lookup (key_of e) m ≡ some (position_of e)
    → pos 0 ≤ℤ x
    → x ≤ℤ e.amount
    → get_principal_amount_rounded_down x e.index ≡ ok p
    → Books (shrunk e x p m) (total -ℤ spent e p)
shrunk-Books m total e (pos r) p books stored low high q =
    round-Books m total books e stored r p high q
shrunk-Books m total e (negsuc n) p books stored low high q = absurd (omega arith)

-- A round touches no other key.
pub lookup-shrunk :
    (e : PositionEntry) (r p : ℤ) (key : PositionKey) (m : Map PositionKey Position)
    → key_of e ≢ key
    → lookup key (shrunk e r p m) ≡ lookup key m
lookup-shrunk e r p key m ne = elim (Bool-cases (leb_ℤ e.amount r)) [
  | inl c ↦ rw c (lookup-remove_ne (key_of e) key m ne)
  | inr c ↦ rw c (lookup-insert_ne (key_of e) key _ m ne)
]
