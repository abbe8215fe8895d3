-- ===== src/Migrations.antt =====
-- keeper/migrations.go: `Migrate1to2`. Both versions of the statistics stand under the key of
-- types/keys.go and have the same fields.
use dollar.Types.{M, get_item, ◌>>=◌}
use dollar.Types.Store.{World}
use dollar.State.Dollar.{set_stats}

unfoldable pub migrate1to2 : {Chain : Type 0} → M (World Chain) (Unit {0})
migrate1to2 = do
  v1_stats ← get_item (λ w. w.dollar.stats)
  set_stats (record {
    total_holders = v1_stats.total_holders;
    total_principal = v1_stats.total_principal;
    total_yield_accrued = v1_stats.total_yield_accrued;
  })
