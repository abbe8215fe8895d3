-- ===== src/Bank/Mock.antt =====
-- utils/mocks/bank.go: a bank over balances by address, for the instances of the theorems. Its
-- send runs the restriction before it moves the balances.
pub mod Laws
use dollar.Base.{if◌then◌else◌}
use dollar.Base.Int.{ℤ, ◌+ℤ◌, ◌-ℤ◌, is_negative}
use dollar.Base.Bytes.{Bytes}
use dollar.Base.Key.{bytes_key}
use dollar.Base.Map.{Map, lookup, insert}
use dollar.Base.Map.Laws.{sum}
use dollar.Types.{ok, err, external}
use dollar.Types.Env.{Call}
use dollar.State.Dollar.{or_zero}

abbrev pub Balances : Type 0
Balances = Map Bytes ℤ

unfoldable pub get_balance : Balances → Bytes → ℤ
get_balance balances account = or_zero (lookup account balances)

unfoldable pub get_supply : Balances → ℤ
get_supply balances = sum (λ amount. amount) balances

-- Here and below the module's address is given.
unfoldable pub mint_coins : Bytes → ℤ → Call Balances
unfolding get_balance
mint_coins account amount balances =
    (ok tt, insert account (get_balance balances account +ℤ amount) balances)

unfoldable pub burn_coins : Bytes → ℤ → Call Balances
unfolding get_balance
burn_coins account amount balances =
    let rest = get_balance balances account -ℤ amount in
    if is_negative rest then (err external, balances) else (ok tt, insert account rest balances)

-- What `SendCoins` does after the restriction.
unfoldable pub move_coins : Bytes → Bytes → ℤ → Call Balances
unfolding get_balance
move_coins from to amount balances =
    let rest = get_balance balances from -ℤ amount in
    let balances' = insert from rest balances in
    if is_negative rest
    then (err external, balances)
    else (ok tt, insert to (get_balance balances' to +ℤ amount) balances')
