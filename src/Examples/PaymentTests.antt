-- ===== src/Examples/PaymentTests.antt =====
-- payments/payments.service.ts on a small database.
use zentto_web.Prelude.{ℕ, ◌≡◌, ◌≢◌, refl, arith, true, false, some}
use zentto_web.Auth.{assert_step_up, verify_totp}
use zentto_web.Prelude.Int.{pos, ◌+ℤ◌, ◌-ℤ◌, ◌≤ℤ◌}
use zentto_web.Money.Amount.{Amount, exact, IsExact}
use zentto_web.Database.{Database, Payment}
use zentto_web.Action.{returned, after, has_returned, Action}
use zentto_web.Auth.StepUp.{Proven}
use zentto_web.Ledger.{
  account_of, accounts_with, id_after, sum_entries, check_legs, leg_entries, post_journal,
  balance_of, held_of, sum_holds, available_of,
}
use zentto_web.Ledger.Journal.{net_entries}
use zentto_web.Prelude.Texts.{text_eq}
use zentto_web.Payments.{
  transfer_transaction, transfer, transfer_new, run_idempotent, find_payment, assert_asset,
  insert_payment, member,
}
use zentto_web.Payments.Store.{IsUnique}
use zentto_web.Payments.Transfer.{payment_row, transferred}
use zentto_web.Payments.Funds.{transfer_moves_funds, transfer_keeps_books, transfer_needs_totp}
use zentto_web.Payments.Idempotency.{transfer_once}
use zentto_web.Examples.Data.{env, usdt, alice, bob, funded, first_key}

abbrev forty : Amount
forty = exact (pos 40)

abbrev paid : Database
paid = transferred 11 bob (some alice) usdt forty first_key funded

abbrev row : Payment
row = payment_row 11 bob (some alice) usdt forty first_key funded

abbrev op : Action Payment
op = transfer_transaction 11 bob (some alice) usdt forty first_key

transfer_moves_funds_example :
    (has_returned (op funded) ≡ true)
    × (balance_of 0 (after (op funded)) ≡ balance_of 0 funded -ℤ pos 40)
    × (available_of 0 (after (op funded)) ≡ available_of 0 funded -ℤ pos 40)
    × (balance_of 1 (after (op funded)) ≡ balance_of 1 funded +ℤ pos 40)
    × ((a : ℕ) → a ≢ 0 → a ≢ 1 → balance_of a (after (op funded)) ≡ balance_of a funded)
    × (IsExact forty → pos 0 ≤ℤ available_of 0 (after (op funded)))
unfolding account_of accounts_with id_after find_payment available_of balance_of held_of sum_entries
    sum_holds ◌+ℤ◌ ◌-ℤ◌
transfer_moves_funds_example =
    transfer_moves_funds 11 bob (some alice) usdt forty first_key funded
      (omega arith, (omega arith, (omega arith, tt))) (λ e. omega (arith, e)) refl refl
      (omega arith) (omega arith)

transfer_keeps_books_example :
    (net_entries (after (op funded)).entries ≡ net_entries funded.entries)
    × IsUnique (after (op funded)).payments
    × (has_returned (op funded) ≡ false → after (op funded) ≡ funded)
transfer_keeps_books_example =
    transfer_keeps_books 11 bob (some alice) usdt forty first_key funded tt

transfer_needs_totp_example : Proven env 11 (some 77) funded
unfolding transfer transfer_new run_idempotent assert_asset member assert_step_up verify_totp
    transfer_transaction insert_payment find_payment text_eq account_of accounts_with id_after
    sum_entries sum_holds check_legs leg_entries post_journal balance_of held_of available_of ◌+ℤ◌
    ◌-ℤ◌
transfer_needs_totp_example =
    transfer_needs_totp env (λ d. d) 11 102 usdt forty first_key (some 77) funded refl refl

transfer_once_example : run_idempotent (λ d. d) 11 first_key op paid ≡ returned row paid
unfolding transfer_transaction insert_payment find_payment text_eq account_of accounts_with id_after
    sum_entries sum_holds check_legs leg_entries post_journal balance_of held_of available_of ◌+ℤ◌
    ◌-ℤ◌
transfer_once_example =
    transfer_once 11 bob (some alice) usdt forty first_key funded (λ d. d) op
      (λ e. omega (arith, e)) refl
