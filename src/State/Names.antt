-- ===== src/State/Names.antt =====
-- The addresses of types/keys.go and types/vaults/keys.go, and writes to one part of the world.
use dollar.Base.Bytes.{Bytes, codes}
use dollar.Types.{M, modify}
use dollar.Types.Store.{World, Dollar, Portal, Vaults, Event}
use dollar.Types.Env.{Env}
use dollar.Base.{[], ◌∷◌, ◌++◌}

abbrev pub module_name : Bytes
module_name = codes "dollar"

abbrev pub yield_name : Bytes
yield_name = codes "dollar/yield"

abbrev pub staked_vault_name : Bytes
staked_vault_name = codes "dollar/vaults/staked"

abbrev pub flexible_vault_name : Bytes
flexible_vault_name = codes "dollar/vaults/flexible"

module _ {Chain Decimal : Type 0} (env : Env Chain Decimal) where
  abbrev pub module_address : Bytes
  module_address = env.new_module_address module_name

  abbrev pub yield_address : Bytes
  yield_address = env.new_module_address yield_name

  abbrev pub staked_vault_address : Bytes
  staked_vault_address = env.new_module_address staked_vault_name

  abbrev pub flexible_vault_address : Bytes
  flexible_vault_address = env.new_module_address flexible_vault_name

module _ {Chain : Type 0} where
  abbrev pub set_dollar : (Dollar → Dollar) → M (World Chain) (Unit {0})
  set_dollar f = modify (λ w. record w { dollar = f w.dollar })

  abbrev pub set_portal : (Portal → Portal) → M (World Chain) (Unit {0})
  set_portal f = modify (λ w. record w { portal = f w.portal })

  abbrev pub set_vaults : (Vaults → Vaults) → M (World Chain) (Unit {0})
  set_vaults f = modify (λ w. record w { vaults = f w.vaults })

  -- The event manager keeps the events in order.
  abbrev pub emit : Event → M (World Chain) (Unit {0})
  emit e = modify (λ w. record w { events = w.events ++ (e ∷ []) })
