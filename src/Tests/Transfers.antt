-- ===== src/Tests/Transfers.antt =====
-- Runs of the theorems on IBC transfers.
use dollar.Base.{ℕ, ◌≡◌, ◌≢◌, refl, some, arith}
use dollar.Base.Int.{pos, ◌+ℤ◌}
use dollar.Base.Bytes.{bytes_eq, codes}
use dollar.Types.{M, ok, pure, skip}
use dollar.Types.Store.{World, YieldKey}
use dollar.State.Dollar.{ibc, hyperlane, get_retry_amount}
use dollar.Recipients.{set_yield_recipient}
use dollar.Ibc.{Packet, send_packet, amount_to_retry, on_timeout_packet, on_acknowledgement_packet}
use dollar.Ibc.Retry.{failed_transfer-adds, set_yield_recipient-send_packet}
use dollar.Bank.Mock.{Balances}
use dollar.Tests.Sample.{bob, authority, sample_env, sample_world}

abbrev packet : Packet
packet = record {
  source_port = codes "transfer";
  source_channel = codes "channel-0";
  contents = codes "7";
}

-- The sample's packets are of 7 $USDN and come from the escrow account.
packet_amount : amount_to_retry sample_env packet ≡ some (pos 7)
unfolding amount_to_retry bytes_eq
packet_amount = refl

keys_differ : ◌≢◌ {A = YieldKey} (ibc, packet.source_channel) (hyperlane, bob)
keys_differ e = ground arith

failed_transfer-adds_example :
    (w₁ : World Balances) × (on_timeout_packet sample_env skip packet sample_world ≡ skip w₁)
    × (on_acknowledgement_packet sample_env skip packet bob sample_world ≡ skip w₁)
    × (get_retry_amount ibc packet.source_channel w₁
        ≡ get_retry_amount ibc packet.source_channel sample_world +ℤ pos 7)
    × (get_retry_amount hyperlane bob w₁ ≡ get_retry_amount hyperlane bob sample_world)
failed_transfer-adds_example =
    failed_transfer-adds sample_env skip packet (pos 7) bob hyperlane bob sample_world packet_amount
      refl keys_differ

abbrev sends : M (World Balances) ℕ
sends = pure 3

set_yield_recipient-send_packet_example :
    (w' : World Balances) × (set_yield_recipient sample_env authority ibc
        (codes "channel-1")
        bob
        sample_world
      ≡ (ok tt, w'))
    × (send_packet sample_env sends (codes "channel-1") (codes "7") w' ≡ sends w')
set_yield_recipient-send_packet_example =
    set_yield_recipient-send_packet sample_env sends (codes "channel-1") bob (codes "7")
      sample_world refl
