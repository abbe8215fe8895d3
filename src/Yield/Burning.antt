-- ===== src/Yield/Burning.antt =====
-- The bank's supply and the total principal under `Burn` (keeper/msg_server.go).
use dollar.Base.{ℕ, ◌+◌, ◌-◌, ◌*◌, ◌/◌, ◌≤◌, ◌<◌, ◌≡◌, refl, true}
use dollar.Base.Int.{ℤ, pos, ◌+ℤ◌, ◌-ℤ◌, ◌≤ℤ◌, int_laws, fits256}
use dollar.Base.Bytes.{Bytes, bytes_eq_refl}
use dollar.Types.{ok}
use dollar.Types.Store.{World}
use dollar.Types.Env.{Env}
use dollar.Math.{get_principal_amount_rounded_up}
use dollar.Math.Rounding.{up, redeem_worth, rounded_up_formula}
use dollar.State.Names.{module_name, module_address}
use dollar.Restriction.{balance_of, send_restriction, move_principal}
use dollar.Restriction.Totals.{Totals, Leaves, on_chain-Totals}
use dollar.Restriction.Moves.{send_restriction-move, move_principal-withdraw}
use dollar.Bank.{burn_coins, send_coins, send_coins_from_account_to_module}
use dollar.Bank.Laws.{IsBank, IsUser}
use dollar.Bank.Keeping.{restriction-chain}
use dollar.Yield.{burn}

module _ {Chain Decimal : Type 0} (env : Env Chain Decimal) where
  -- A send from a user to the module, with what the restriction does to the totals.
  send-module :
      (bank : IsBank env) (sender : Bytes) (n : ℕ) (w : World Chain) (h t i : ℤ)
      → IsUser env sender
      → pos n ≤ℤ balance_of env sender w
      → Leaves
          (send_restriction env sender (module_address env) (pos n))
          (module_address env)
          w
          h
          t
          i
      → (w' : World Chain) × (send_coins_from_account_to_module env sender module_name (pos n) w
          ≡ (ok tt, w'))
        × (env.get_supply w'.chain ≡ env.get_supply w.chain)
        × (env.get_balance w'.chain (module_address env)
            ≡ env.get_balance w.chain (module_address env) +ℤ pos n)
        × Totals w' h t i
  unfolding send_coins_from_account_to_module send_coins
  send-module bank sender n w h t i user enough (w₁, moved, r) =
      let same : w₁.chain ≡ w.chain =
        rw moved at (restriction-chain env sender (module_address env) (pos n) w) in
      let (c, sent, supply, balance) =
        bank.sends sender (module_address env) n w.chain user.no_module enough in
      (
        record w₁ { chain = c },
        rw
            (
              user.allowed w.chain,
              bank.restricts sender (module_address env) n w.chain,
              moved,
              same,
              sent,
            )
            refl,
        supply,
        balance,
        on_chain-Totals w₁ h t i c r,
      )

module _ {Chain Decimal : Type 0} (env : Env Chain Decimal) (bank : IsBank env) (sender : Bytes)
    (a i s t : ℕ) (w : World Chain) (h : ℤ) where
  -- With a bank that moves, mints and burns coins by the amount, at a positive index, with the
  -- statistics there, where the total stays within 256 bits, the module has no negative balance,
  -- and the sender has the amount and can send to the module: a burn of a positive amount that is
  -- not above the supply, and whose principal rounded up is not above the total, succeeds. It
  -- lowers the supply by the amount, and the sum of all principals and the total principal by the
  -- amount's principal rounded up. What the total principal is worth falls by the amount, one unit
  -- of the index and one more at most.
  pub burn_lem :
      0 < i
      → 0 < a
      → IsUser env sender
      → pos a ≤ℤ balance_of env sender w
      → pos 0 ≤ℤ balance_of env (module_address env) w
      → up a i ≤ t
      → fits256 (pos t -ℤ pos (up a i)) ≡ true
      → Totals w h (pos t) (pos i)
      → env.get_supply w.chain ≡ pos s
      → a ≤ s
      → (w' : World Chain) × (u : ℕ) × (burn env sender (pos a) w ≡ (ok tt, w'))
        × (get_principal_amount_rounded_up (pos a) (pos i) ≡ ok (pos u))
        × Totals w' (h -ℤ pos u) (pos (t - u)) (pos i)
        × (env.get_supply w'.chain ≡ pos (s - a))
        × (t * i / 1_000_000_000_000
            ≤ (t - u) * i / 1_000_000_000_000 + a + (i / 1_000_000_000_000 + 1))
  unfolding burn burn_coins
  burn_lem positive some_amount user owns balance le fits r supply below =
      let moved : Leaves (move_principal env sender (module_address env) (pos a)) tt w
          (h -ℤ pos (up a i)) (pos t -ℤ pos (up a i)) (pos i) =
        move_principal-withdraw env sender (module_address env) a i w h (pos t) positive
          user.no_module (bytes_eq_refl (module_address env)) fits r in
      let (w₁, sent, supply₁, balance₁, r₁) = send-module env bank sender a w _ _ _ user owns (
        send_restriction-move env sender (module_address env) a i w h (pos t) w _ _ some_amount
          user.no_yield user.differ moved) in
      let enough : pos a ≤ℤ env.get_balance w₁.chain (module_address env) =
        grind (int_laws, balance₁, balance) in
      let (c, burned, supply₂) = bank.burns module_name a w₁.chain enough in
      let total : pos t -ℤ pos (up a i) ≡ pos (t - up a i) = grind (int_laws, le) in
      (
        record w₁ { chain = c },
        up a i,
        rw (bank.coins a, sent, burned) refl,
        rounded_up_formula a i positive,
        rw total at (on_chain-Totals w₁ _ _ _ c r₁),
        grind (int_laws, supply₂, supply₁, supply, below),
        redeem_worth t a i positive le,
      )
