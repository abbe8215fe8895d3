-- ===== src/Tests/Rounds.antt =====
-- A run of the theorem on rounds for a channel.
use dollar.Base.{◌+◌, ◌≡◌, refl, true, false, [], ◌∷◌, arith}
use dollar.Base.Int.{ℤ, pos, ◌+ℤ◌, ◌-ℤ◌, ◌*ℤ◌, quo, fits256}
use dollar.Base.Bytes.{bytes_eq}
use dollar.Base.Key.{int_key, bytes_key, pair_key}
use dollar.Base.Map.{lookup, insert, remove}
use dollar.Types.{ok}
use dollar.Types.Store.{World}
use dollar.State.Dollar.{
  ibc, get_retry_amount, get_retry_amount_and_remove, increment_retry_amount,
  increment_total_external_yield,
}
use dollar.Yield.{claim_module_yield, get_yield, valid_yield}
use dollar.Bank.{send_coins, send_coins_from_module_to_account}
use dollar.Math.{get_present_amount, quo_raw}
use dollar.Restriction.{send_restriction, principal_of}
use dollar.Index.External.{claim_channel, transfer_or_retry}
use dollar.Index.Retrying.{emptied}
use dollar.Index.Rounds.{Round, stop, failed, owed, claim_channel-delivers}
use dollar.Bank.Mock.{Balances, get_balance, move_coins}
use dollar.Tests.Sample.{bob, sample_env}
use dollar.Tests.Distribution.{
  failing_env, escrow_world, channel_0, claimed_world, claim-run, five_wait, one_key,
}

first-Round : Round channel_0 bob failing_env 50 5 false escrow_world
first-Round = record {
  claimed_world = claimed_world;
  sent_world = emptied channel_0 (pos 5) claimed_world;
  claims = claim-run;
  positive = omega arith;
  transfers = refl;
  leaves = refl;
}

abbrev waiting_world : World Balances
waiting_world = (claim_channel failing_env channel_0 bob escrow_world).1

first_run : claim_channel failing_env channel_0 bob escrow_world ≡ (ok tt, waiting_world)
unfolding claim_channel claim_module_yield get_yield valid_yield principal_of get_present_amount
    quo_raw fits256 ◌-ℤ◌ ◌+ℤ◌ quo ◌*ℤ◌ get_balance send_coins_from_module_to_account send_coins
    send_restriction move_coins bytes_eq lookup insert remove transfer_or_retry get_retry_amount
    get_retry_amount_and_remove increment_retry_amount increment_total_external_yield
first_run = refl

-- No yield is due any more, and the transfer of what waits succeeds.
second-Round : Round channel_0 bob sample_env 0 55 true waiting_world
unfolding claim_channel claim_module_yield get_yield valid_yield principal_of get_present_amount
    quo_raw fits256 ◌-ℤ◌ ◌+ℤ◌ quo ◌*ℤ◌ get_balance send_coins_from_module_to_account send_coins
    send_restriction move_coins bytes_eq lookup insert remove transfer_or_retry get_retry_amount
    get_retry_amount_and_remove increment_retry_amount increment_total_external_yield
second-Round = record {
  claimed_world = waiting_world;
  sent_world = emptied channel_0 (pos 55) waiting_world;
  claims = refl;
  positive = omega arith;
  transfers = refl;
  leaves = refl;
}

claim_channel-delivers_example :
    (get_retry_amount ibc channel_0 waiting_world ≡ pos (owed (50 ∷ []) + 5))
    × ((w'' : World Balances) × (claim_channel sample_env channel_0 bob waiting_world
          ≡ (ok tt, w''))
        × (get_retry_amount ibc channel_0 w'' ≡ pos 0))
claim_channel-delivers_example =
    claim_channel-delivers ℤ channel_0 bob sample_env 5 0 (50 ∷ []) escrow_world waiting_world
      one_key five_wait (failed first-Round first_run stop) second-Round
