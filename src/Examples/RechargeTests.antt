-- ===== src/Examples/RechargeTests.antt =====
-- recharge/recharge.service.ts on a small database.
use zentto_web.Prelude.{◌≡◌, refl, none, some, [], ◌∷◌}
use zentto_web.Prelude.Int.{pos, div_trunc, ◌*ℤ◌, ◌-ℤ◌, ◌+ℤ◌}
use zentto_web.Money.Amount.{exact}
use zentto_web.Errors.{Error}
use zentto_web.Database.{Database, RechargeRequest, RechargeStatus}
use zentto_web.Action.{thrown, after}
use zentto_web.Auth.{assert_step_up, verify_totp}
use zentto_web.Fees.{quote_deposit, percent, clamp_fee}
use zentto_web.Payments.{insert_payment, find_payment}
use zentto_web.Ledger.{post_journal, check_legs}
use zentto_web.Recharge.{confirm_transaction, get_request, claim, cancel, submit_evidence, confirm}
use zentto_web.Recharge.Finished.{confirm_once}
use zentto_web.Examples.Data.{env, usdt, funded}

-- User 12 has paid operator 11 for 400.
abbrev paid_request : RechargeRequest
paid_request = record {
  id = 7;
  user_id = 12;
  operator_user_id = some 11;
  asset = usdt;
  amount = exact (pos 400);
  rate_ves = exact (pos 36);
  fiat_amount = pos 0;
  status = RechargeStatus.paid;
  operator_payment_info = none;
  evidence = none;
  fee_amount = exact (pos 0);
  claimed_at = some 0;
}

abbrev asked : Database
asked = record funded { requests = paid_request ∷ [] }

abbrev recharged : Database
recharged = after (confirm env 11 7 (some 77) asked)

confirm_once_example :
    ((e : Error) × (confirm env 11 7 (some 77) recharged ≡ thrown e recharged))
    × ((e : Error) × (cancel 11 7 recharged ≡ thrown e recharged))
    × ((e : Error) × (submit_evidence 11 7 [] recharged ≡ thrown e recharged))
    × ((e : Error) × (claim 9 11 7 [] recharged ≡ thrown e recharged))
unfolding confirm assert_step_up verify_totp confirm_transaction get_request quote_deposit percent
    insert_payment find_payment post_journal clamp_fee div_trunc ◌*ℤ◌ check_legs ◌-ℤ◌ ◌+ℤ◌
confirm_once_example = confirm_once env 11 11 7 9 (some 77) (some 77) [] [] asked recharged _ refl
