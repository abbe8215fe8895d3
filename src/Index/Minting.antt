-- ===== src/Index/Minting.antt =====
-- The bank's supply and the total principal under `Mint` (keeper/msg_server.go).
use dollar.Base.{ℕ, ◌+◌, ◌*◌, ◌/◌, ◌≤◌, ◌<◌, ◌≡◌, refl, true, none}
use dollar.Base.Int.{ℤ, pos, ◌+ℤ◌, ◌≤ℤ◌, int_laws, fits256}
use dollar.Base.Bytes.{Bytes, bytes_eq_refl}
use dollar.Types.{ok}
use dollar.Types.Store.{World}
use dollar.Types.Env.{Env}
use dollar.Math.{get_principal_amount_rounded_up, get_principal_amount_rounded_down}
use dollar.Math.Rounding.{up, down, issue_worth, rounded_up_formula, rounded_down_formula}
use dollar.State.Names.{module_name, module_address}
use dollar.Restriction.{balance_of, send_restriction, move_principal}
use dollar.Restriction.Totals.{Totals, Leaves, on_chain-Totals}
use dollar.Restriction.Moves.{send_restriction-move, move_principal-issue}
use dollar.Bank.{mint_coins, send_coins, send_coins_from_module_to_account}
use dollar.Bank.Laws.{IsBank, IsUser}
use dollar.Bank.Keeping.{restriction-chain}
use dollar.Index.Update.{mint}

module _ {Chain Decimal : Type 0} (env : Env Chain Decimal) where
  -- A send from the module to a user, with what the restriction does to the totals.
  module-send :
      (bank : IsBank env) (recipient : Bytes) (n : ℕ) (w : World Chain) (h t i : ℤ)
      → IsUser env recipient
      → pos n ≤ℤ balance_of env (module_address env) w
      → Leaves (send_restriction env (module_address env) recipient (pos n)) recipient w h t i
      → (w' : World Chain) × (send_coins_from_module_to_account env module_name recipient (pos n) w
          ≡ (ok tt, w'))
        × (env.get_supply w'.chain ≡ env.get_supply w.chain)
        × (env.get_balance w'.chain recipient ≡ env.get_balance w.chain recipient +ℤ pos n)
        × Totals w' h t i
  unfolding send_coins_from_module_to_account send_coins
  module-send bank recipient n w h t i user enough (w₁, moved, r) =
      let same : w₁.chain ≡ w.chain =
        rw moved at (restriction-chain env (module_address env) recipient (pos n) w) in
      let (c, sent, supply, balance) =
        bank.sends (module_address env) recipient n w.chain user.module_no enough in
      (
        record w₁ { chain = c },
        rw
            (
              user.allowed w.chain,
              bank.restricts (module_address env) recipient n w.chain,
              moved,
              same,
              sent,
            )
            refl,
        supply,
        balance,
        on_chain-Totals w₁ h t i c r,
      )

module _ {Chain Decimal : Type 0} (env : Env Chain Decimal) (bank : IsBank env) (recipient : Bytes)
    (a i s t : ℕ) (w : World Chain) (h : ℤ) where
  -- With a bank that moves, mints and burns coins by the amount, at a positive index, with the
  -- statistics there, where the total stays within 256 bits, the module has no negative balance and
  -- can send to the recipient: a mint of a positive amount without a new index succeeds, raises the
  -- supply and the recipient's balance by the amount, the sum of all principals by the amount's
  -- principal rounded down, and the total principal by the one rounded up. What the total principal
  -- is worth rises by the amount at least.
  pub mint_lem :
      0 < i
      → 0 < a
      → IsUser env recipient
      → pos 0 ≤ℤ balance_of env (module_address env) w
      → fits256 (pos t +ℤ pos (up a i)) ≡ true
      → Totals w h (pos t) (pos i)
      → env.get_supply w.chain ≡ pos s
      → (w' : World Chain) × (p u : ℕ) × (mint env recipient (pos a) none w ≡ (ok tt, w'))
        × (get_principal_amount_rounded_down (pos a) (pos i) ≡ ok (pos p))
        × (get_principal_amount_rounded_up (pos a) (pos i) ≡ ok (pos u))
        × Totals w' (h +ℤ pos p) (pos (t + u)) (pos i)
        × (env.get_balance w'.chain recipient ≡ env.get_balance w.chain recipient +ℤ pos a)
        × (env.get_supply w'.chain ≡ pos (s + a))
        × (t * i / 1_000_000_000_000 + a ≤ (t + u) * i / 1_000_000_000_000)
  unfolding mint mint_coins
  mint_lem positive some_amount user balance fits r supply =
      let (c₁, minted, supply₁, balance₁, others) = bank.mints module_name a w.chain in
      let now : World Chain = record w { chain = c₁ } in
      let enough : pos a ≤ℤ env.get_balance c₁ (module_address env) = grind (int_laws, balance₁) in
      let moved : Leaves (move_principal env (module_address env) recipient (pos a)) tt now
          (h +ℤ pos (down a i)) (pos t +ℤ pos (up a i)) (pos i) =
        move_principal-issue env (module_address env) recipient a i now h (pos t) positive
          (bytes_eq_refl (module_address env)) user.no_module fits
          (on_chain-Totals w h (pos t) (pos i) c₁ r) in
      let (w₂, sent, supply₂, balance₂, r₂) =
        module-send env bank recipient a now _ _ _ user enough (
          send_restriction-move env (module_address env) recipient a i now h (pos t) now _ _
            some_amount user.differ user.no_yield moved) in
      let total : pos t +ℤ pos (up a i) ≡ pos (t + up a i) = grind int_laws in
      (
        w₂,
        down a i,
        up a i,
        rw (bank.coins a, minted, sent) refl,
        rounded_down_formula a i positive,
        rounded_up_formula a i positive,
        rw total at r₂,
        rw (others recipient user.module_no) at balance₂,
        grind (int_laws, supply₂, supply₁, supply),
        issue_worth t a i positive,
      )
