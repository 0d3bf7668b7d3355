-- ===== src/Examples/WithdrawalTests.antt =====
-- withdrawals/withdrawals.service.ts on a small database.
use mathlib.Core.List.{Memᴰ}
use zentto_web.Environment.{Network}
use zentto_web.Prelude.{◌∷◌, [], ℕ, ◌≡◌, ◌≢◌, ◌↔◌, refl, arith, true, false, none, some}
use zentto_web.Prelude.Int.{pos, ◌+ℤ◌, ◌-ℤ◌, ◌≤ℤ◌, ◌<ℤ◌, ◌*ℤ◌, div_trunc}
use zentto_web.Money.Amount.{exact}
use zentto_web.Fees.{FeeQuote, percent, clamp_fee, quote_withdraw}
use zentto_web.Database.{Database, Payment, PaymentType, PaymentStatus, Stage, no_metadata}
use zentto_web.Action.{after, has_returned}
use zentto_web.Ledger.{
  account_of, accounts_with, id_after, sum_entries, sum_holds, balance_of, held_of, available_of,
}
use zentto_web.Auth.{verify_totp}
use zentto_web.Auth.StepUp.{Proven}
use zentto_web.Withdrawals.Guards.{request_needs_totp}
use zentto_web.Payments.{find_payment, insert_payment, member}
use zentto_web.Withdrawals.{
  with_stage, WithdrawRequest, request, cfg_of, assert_withdrawal, request_transaction,
}
use zentto_web.Withdrawals.Worker.{complete, TxStatus, run_cycle}
use zentto_web.Withdrawals.Rows.{rows}
use zentto_web.Withdrawals.Stuck.{run_cycle_skips}
use zentto_web.Withdrawals.Settlement.{complete_settles}
use zentto_web.Withdrawals.Lifecycle.{held_row, request_transaction_iff}
use zentto_web.Examples.Data.{env, usdt, funded, with_hold, alice_hold, first_key}

abbrev withdraw_hundred : WithdrawRequest
withdraw_hundred = record {
  user_id = 11;
  asset = usdt;
  amount = exact (pos 300);
  to_address = 55;
  idempotency_key = first_key;
  network = none;
  save_label = none;
  totp_code = some 77;
}

-- One percent of 300 and a network fee of 3.
abbrev quote : FeeQuote
quote = record {
  platform_fee = exact (pos 3);
  network_fee = exact (pos 3);
  total_fee = exact (pos 6);
  net = exact (pos 300);
  total = exact (pos 306);
}

request_transaction_iff_example :
    ((has_returned (request_transaction env withdraw_hundred 1 funded) ≡ true)
      ↔ ((find_payment 11 first_key funded.payments ≡ none) × (pos 306 ≤ℤ available_of 0 funded)))
    × (has_returned (request_transaction env withdraw_hundred 1 funded) ≡ false
        → after (request_transaction env withdraw_hundred 1 funded) ≡ funded)
unfolding quote_withdraw percent clamp_fee div_trunc ◌*ℤ◌ ◌+ℤ◌ account_of
request_transaction_iff_example = request_transaction_iff env withdraw_hundred 1 quote funded refl

abbrev held : Payment
held = held_row env withdraw_hundred 1 quote funded

-- A withdrawal of 390 with a fee of 10, for which `alice_hold` keeps 400.
abbrev waiting : Payment
waiting = record {
  id = 7;
  idempotency_key = first_key;
  user_id = 11;
  type = PaymentType.withdrawal;
  asset = usdt;
  amount = exact (pos 390);
  status = PaymentStatus.processing;
  from_account_id = some 0;
  to_account_id = none;
  counterparty = 55;
  metadata = record no_metadata {
    stage = some Stage.broadcast;
    total_fee = some (exact (pos 10));
    total_debit = some (exact (pos 400));
    hold_id = some 6;
  };
}

complete_settles_example :
    (has_returned (complete waiting with_hold) ≡ true)
    × (balance_of 0 (after (complete waiting with_hold)) ≡ balance_of 0 with_hold -ℤ pos 400)
    × (available_of 0 (after (complete waiting with_hold)) ≡ available_of 0 with_hold)
    × (balance_of 10 (after (complete waiting with_hold)) ≡ balance_of 10 with_hold +ℤ pos 390)
    × (balance_of 11 (after (complete waiting with_hold)) ≡ balance_of 11 with_hold +ℤ pos 10)
    × ((a : ℕ)
        → a ≢ 0
        → a ≢ 10
        → a ≢ 11
        → balance_of a (after (complete waiting with_hold)) ≡ balance_of a with_hold)
unfolding account_of accounts_with id_after ◌+ℤ◌
complete_settles_example =
    complete_settles waiting 6 (exact (pos 400)) (exact (pos 10)) with_hold {h = alice_hold}
      (omega arith, (omega arith, (omega arith, tt))) (omega arith, tt) refl refl refl refl refl
      (omega arith) (omega arith) refl

request_needs_totp_example :
    (member usdt env.withdrawable ≡ true)
    × (pos 0 <ℤ pos 300)
    × (env.is_address 55 ≡ true)
    × ((n : Network) × Memᴰ n env.networks
        × ((k : ℕ) → withdraw_hundred.network ≡ some k → n.key ≡ k))
    × Proven env 11 (some 77) funded
unfolding request request_transaction cfg_of assert_withdrawal verify_totp member insert_payment
    quote_withdraw percent clamp_fee div_trunc ◌*ℤ◌ account_of accounts_with id_after find_payment
    available_of balance_of held_of sum_entries sum_holds ◌+ℤ◌ ◌-ℤ◌
request_needs_totp_example = request_needs_totp env (λ d. d) 0 withdraw_hundred funded refl refl

-- A withdrawal that a crash left between the save of its stage and its broadcast.
abbrev left_behind : Payment
left_behind = with_stage waiting Stage.broadcasting

abbrev crashed : Database
crashed = record with_hold { payments = left_behind ∷ [] }

run_cycle_skips_example :
    rows 7
      (after
        (run_cycle env (λ p. some 9) (λ tx network. TxStatus.success 100) false crashed)).payments
    ≡ rows 7 crashed.payments
run_cycle_skips_example =
    run_cycle_skips 7 env (λ p. some 9) (λ tx network. TxStatus.success 100) false crashed
      ((refl, refl), tt)
