-- ===== src/State/Portal.antt =====
-- keeper/state_portal.go
use dollar.Base.{ℕ, ◌+◌, ◌%◌, ◌^◌, Bool, some, List, [], ◌∷◌, if◌then◌else◌}
use dollar.Base.Bytes.{Bytes}
use dollar.Base.Map.{Map}
use dollar.Types.{M, pure, get_item, ◌>>=◌, ◌>>◌}
use dollar.Types.Store.{World}
use dollar.State.Names.{set_portal}
use dollar.State.Dollar.{or_false}

-- The supported bridging paths, in the order of their keys.
unfoldable pub get_portal_bridging_paths : Map (ℕ × Bytes) Bool → List (ℕ × Bytes)
get_portal_bridging_paths [] = []
get_portal_bridging_paths ((path, supported) ∷ m) =
    let rest = get_portal_bridging_paths m in if supported then path ∷ rest else rest

module _ {Chain : Type 0} where
  unfoldable pub get_portal_paused : World Chain → Bool
  get_portal_paused w = or_false w.portal.paused

  -- The nonce is a uint32 and wraps.
  unfoldable pub increment_portal_nonce : M (World Chain) ℕ
  increment_portal_nonce = do
    nonce ← get_item (λ w. w.portal.nonce)
    set_portal (λ p. record p { nonce = some ((nonce + 1) % 2 ^ 32) })
    pure nonce
