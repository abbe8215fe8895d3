-- ===== src/Index/Keeping.antt =====
-- The stored index, which the sends of the keeper leave alone.
use dollar.Base.{◌≡◌, some}
use dollar.Base.Int.{ℤ}
use dollar.Types.{M, Preserves}
use dollar.Types.Store.{World}
use dollar.Bank.Keeping.{IsStable}

-- The stored index.
abbrev pub At : {Chain : Type 0} → ℤ → World Chain → Type 0
At i w = w.dollar.index ≡ some i

-- The call keeps the stored index, whatever its outcome.
abbrev pub Keeps : {Chain A : Type 0} → ℤ → M (World Chain) A → Type 0
Keeps i m = Preserves (At i) m

pub At-IsStable : {Chain : Type 0} (i : ℤ) → IsStable (At {Chain = Chain} i)
At-IsStable i = record {
  untouched = record { principal = λ w m e. e; stats = λ w s e. e };
  chain = λ w c e. e;
}
