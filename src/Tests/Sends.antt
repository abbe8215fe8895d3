-- ===== src/Tests/Sends.antt =====
-- Runs of the theorems on the yield account in the sends of the bank.
use dollar.Base.{◌≡◌, [], ◌∷◌}
use dollar.Base.Int.{pos}
use dollar.Base.Bytes.{Bytes, codes}
use dollar.Types.Store.{World}
use dollar.Restriction.{principal_of}
use dollar.Bank.{send_coins}
use dollar.Bank.Mock.{Balances}
use dollar.Bank.YieldAccount.{send_coins-principal}
use dollar.Tests.Sample.{alice, bob, sample_env, sample_world}
use dollar.Tests.Keeper.{module_account}

abbrev yield_account : Bytes
yield_account = codes "dollar/yield"

-- A send from the yield account to Bob.
send_coins-principal_example :
    principal_of yield_account (send_coins sample_env yield_account bob (pos 10) sample_world).1
    ≡ principal_of yield_account sample_world
send_coins-principal_example =
    send_coins-principal sample_env yield_account bob (pos 10) sample_world

-- The module has coins that it minted.
abbrev minted_world : World Balances
minted_world = record sample_world {
  chain = (alice, pos 60) ∷ (bob, pos 30) ∷ (module_account, pos 34) ∷ [];
}

abbrev paid_world : World Balances
paid_world = (send_coins sample_env module_account yield_account (pos 34) minted_world).1
