-- ===== src/Withdrawals/Settlement.antt =====
-- How the worker ends a withdrawal: `complete` commits the hold and posts a journal, `failAndRefund`
-- releases the hold and posts nothing.
use zentto_web.Prelude.{ℕ, ◌≡◌, ◌≢◌, refl, ap, ◌∙◌, true, false, some, List, arith, inl, inr}
use zentto_web.Prelude.Int.{ℤ, pos, ◌+ℤ◌, ◌-ℤ◌, ◌≤ℤ◌, ◌<ℤ◌, int_laws, +ℤ_zero}
use zentto_web.Money.Amount.{Amount}
use zentto_web.Errors.{Error}
use zentto_web.Database.{
  Database, Account, Payment, PaymentStatus, Stage, Hold, HoldStatus, user, system, custody_owner,
  fee_account,
}
use zentto_web.Action.{returned, thrown, after, has_returned}
use zentto_web.Ledger.{
  JournalLeg, owns, find_account, account_of, accounts_with, id_after, balance_of, held_of,
  available_of, update_holds, save_legs,
}
use zentto_web.Ledger.Accounts.{
  account_ids_differ, accounts_with-Descending, account_of_found, account_stays,
}
use zentto_web.Ledger.Holds.{
  Descending, find_hold, kept, set_hold_status-available_of, sum_holds-update,
}
use zentto_web.Ledger.Journal.{
  Accepted, effect, post_journal-Accepted, post_journal_cases, sum_entries-leg_entries,
}
use zentto_web.Ledger.Split.{
  split_legs, split_legs-Accepted, split_legs_unbalanced, split_legs-shares, split_legs-others,
  posted_fee,
}
use zentto_web.Payments.Transfer.{HasAccounts}
use zentto_web.Withdrawals.{update_payments, with_stage}
use zentto_web.Withdrawals.Worker.{fail_and_refund, complete}

-- A refund returns and writes nothing to the ledger; the funds that the hold kept back are available
-- again to its account, and every other account has available what it had.
pub fail_and_refund-available_of :
    (p : Payment) (k a : ℕ) (db : Database) {h : Hold}
    → p.metadata.hold_id ≡ some k
    → Descending db.next_id db.holds
    → find_hold k db.holds ≡ some h
    → let out = fail_and_refund p db in
      (has_returned out ≡ true)
      × (available_of a (after out) ≡ available_of a db +ℤ kept a h)
      × ((after out).entries ≡ db.entries)
unfolding fail_and_refund available_of balance_of held_of
fail_and_refund-available_of p k a db hid d e =
    simp hid (refl, set_hold_status-available_of a k HoldStatus.released db d e refl, refl)

-- The accounts that a settlement finds or makes.
module _ (p : Payment) (db : Database) where
  abbrev pub user_account : Account
  user_account = account_of user p.user_id p.asset db

  abbrev with_user : Database
  with_user = record db {
    accounts = accounts_with user p.user_id p.asset db;
    next_id = id_after user p.user_id p.asset db;
  }

  abbrev pub custody_account : Account
  custody_account = account_of system custody_owner p.asset with_user

  abbrev with_custody : Database
  with_custody = record with_user {
    accounts = accounts_with system custody_owner p.asset with_user;
    next_id = id_after system custody_owner p.asset with_user;
  }

  abbrev pub treasury : Account
  treasury = account_of system fee_account p.asset with_custody

  abbrev pub with_treasury : Database
  with_treasury = record with_custody {
    accounts = accounts_with system fee_account p.asset with_custody;
    next_id = id_after system fee_account p.asset with_custody;
  }

  user_not_system :
      (o v : ℕ) (acc : Account) → owns user o p.asset acc ≡ true → owns system v p.asset acc ≡ false
  user_not_system o v acc h = ground arith

  not_treasury :
      (acc : Account)
      → owns system custody_owner p.asset acc ≡ true
      → owns system fee_account p.asset acc ≡ false
  not_treasury acc h = ground arith

  user_still_there : find_account user p.user_id p.asset with_custody.accounts ≡ some user_account
  user_still_there =
      account_stays user system p.user_id custody_owner p.asset p.asset with_user
        (account_of_found user p.user_id p.asset db) refl

  pub settlement_accounts_differ :
      HasAccounts db
      → (user_account.id ≢ custody_account.id)
        × (user_account.id ≢ treasury.id)
        × (custody_account.id ≢ treasury.id)
  settlement_accounts_differ acc =
      let d = accounts_with-Descending user p.user_id p.asset db acc in
      let d' = accounts_with-Descending system custody_owner p.asset with_user d in
      (
        account_ids_differ user system p.user_id custody_owner p.asset with_user d
            (account_of_found user p.user_id p.asset db) (user_not_system p.user_id custody_owner),
        account_ids_differ user system p.user_id fee_account p.asset with_custody d'
            user_still_there (user_not_system p.user_id fee_account),
        account_ids_differ system system custody_owner fee_account p.asset with_custody d'
            (account_of_found system custody_owner p.asset with_user) not_treasury,
      )

module _ (p : Payment) (k : ℕ) (total_debit total_fee : Amount) (db : Database) where
  abbrev settlement : List JournalLeg
  settlement =
      split_legs (user_account p db).id (custody_account p db).id (treasury p db).id total_debit
        p.amount total_fee p.asset

  abbrev committed_db : Database
  committed_db = record (with_treasury p db) {
    holds = update_holds k HoldStatus.committed db.holds;
  }

  abbrev done_row : Payment
  done_row = record (with_stage p Stage.completed) { status = PaymentStatus.completed }

  abbrev settled : Database
  settled = record (save_legs p.id settlement committed_db) {
    payments = update_payments done_row db.payments;
  }

  complete_ok :
      p.metadata.hold_id ≡ some k
      → p.metadata.total_debit ≡ some total_debit
      → p.metadata.total_fee ≡ some total_fee
      → Accepted settlement
      → complete p db ≡ returned tt settled
  unfolding complete
  complete_ok hid td tf acc =
      simp (hid, td, tf) (rw (post_journal-Accepted p.id settlement committed_db acc))

  complete_bad :
      p.metadata.hold_id ≡ some k
      → p.metadata.total_debit ≡ some total_debit
      → p.metadata.total_fee ≡ some total_fee
      → ¬ Accepted settlement
      → (e : Error) × (complete p db ≡ thrown e db)
  unfolding complete
  complete_bad hid td tf bad = elim (post_journal_cases p.id settlement committed_db) [
    | inl (acc, e) ↦ absurd (bad acc)
    | inr (x, e) ↦ (x, simp (hid, td, tf) (rw e))
  ]

  balance_of-settled : (a : ℕ) → balance_of a settled ≡ balance_of a db +ℤ effect a settlement
  unfolding balance_of
  balance_of-settled a = sum_entries-leg_entries a p.id committed_db.next_id settlement db.entries

  available_of-settled :
      (a : ℕ) {h : Hold}
      → Descending db.next_id db.holds
      → find_hold k db.holds ≡ some h
      → available_of a settled ≡ available_of a db +ℤ kept a h +ℤ effect a settlement
  unfolding available_of held_of
  available_of-settled a d e = rw (balance_of-settled a) (
      rw (← sum_holds-update a db.next_id k HoldStatus.committed db.holds d e refl)
        (omega int_laws))

  -- A settlement whose debit is the amount plus the fee, of an amount above zero and a fee of zero or
  -- more, for a withdrawal whose hold keeps back just the debit on the user's account: it returns, the
  -- balance of the user falls by the debit while what is available stays as it was, custody receives
  -- the amount, the treasury the fee, and no other account changes.
  pub complete_settles :
      {h : Hold}
      → HasAccounts db
      → Descending db.next_id db.holds
      → p.metadata.hold_id ≡ some k
      → p.metadata.total_debit ≡ some total_debit
      → p.metadata.total_fee ≡ some total_fee
      → find_hold k db.holds ≡ some h
      → kept (user_account p db).id h ≡ total_debit.stored
      → pos 0 <ℤ p.amount.base
      → pos 0 ≤ℤ total_fee.base
      → total_debit.base ≡ p.amount.base +ℤ total_fee.base
      → let out = complete p db in
        let paid =
          posted_fee
            (user_account p db).id
            (custody_account p db).id
            (treasury p db).id
            total_debit
            p.amount
            total_fee
            p.asset in
        (has_returned out ≡ true)
        × (balance_of (user_account p db).id (after out)
            ≡ balance_of (user_account p db).id db -ℤ total_debit.stored)
        × (available_of (user_account p db).id (after out) ≡ available_of (user_account p db).id db)
        × (balance_of (custody_account p db).id (after out)
            ≡ balance_of (custody_account p db).id db +ℤ p.amount.stored)
        × (balance_of (treasury p db).id (after out) ≡ balance_of (treasury p db).id db +ℤ paid)
        × ((a : ℕ)
            → a ≢ (user_account p db).id
            → a ≢ (custody_account p db).id
            → a ≢ (treasury p db).id
            → balance_of a (after out) ≡ balance_of a db)
  complete_settles acc d hid td tf found keeps positive fee_ok sum =
      let apart = settlement_accounts_differ p db acc in
      let accepted =
        split_legs-Accepted (user_account p db).id (custody_account p db).id (treasury p db).id
          total_debit p.amount total_fee p.asset positive fee_ok sum in
      let shares =
        split_legs-shares (user_account p db).id (custody_account p db).id (treasury p db).id
          total_debit p.amount total_fee p.asset apart.0 apart.1 apart.2 in
      rw (complete_ok hid td tf accepted) (
        refl,
        rw (balance_of-settled (user_account p db).id) (rw shares.0 (omega int_laws)),
        rw (available_of-settled (user_account p db).id d found)
            (rw (keeps, shares.0) (omega int_laws)),
        rw (balance_of-settled (custody_account p db).id) (rw shares.1 (omega int_laws)),
        rw (balance_of-settled (treasury p db).id) (rw shares.2 (omega int_laws)),
        λ a nu nc nt.
            balance_of-settled a
            ∙ ap (λ (z : ℤ). balance_of a db +ℤ z)
                (split_legs-others (user_account p db).id (custody_account p db).id
                  (treasury p db).id total_debit p.amount total_fee p.asset a nu nc nt)
            ∙ +ℤ_zero (balance_of a db),
      )

  -- A settlement whose debit is not the amount plus the fee throws, and the database is as it was: the
  -- withdrawal stays with its hold, to be tried again in the next round.
  pub complete_refuses :
      p.metadata.hold_id ≡ some k
      → p.metadata.total_debit ≡ some total_debit
      → p.metadata.total_fee ≡ some total_fee
      → pos 0 ≤ℤ total_fee.base
      → total_debit.base ≢ p.amount.base +ℤ total_fee.base
      → (e : Error) × (complete p db ≡ thrown e db)
  complete_refuses hid td tf fee_ok odd = complete_bad hid td tf (
      split_legs_unbalanced (user_account p db).id (custody_account p db).id (treasury p db).id
        total_debit p.amount total_fee p.asset fee_ok odd)
