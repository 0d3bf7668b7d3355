-- ===== src/Payments/Transfer.antt =====
-- What a transfer does to the ledger, on every branch.
use zentto_web.Prelude.{
  ℕ, suc, ◌≡◌, ◌≢◌, ◌⊎◌, refl, ◌∙◌, sym, true, false, Option, none, some, List, ◌∷◌, arith,
  Bool-cases, Option-cases, inl, inr, ne→==, ==_refl,
}
use zentto_web.Prelude.Int.{pos, ◌-ℤ◌, ◌≤ℤ◌, ◌<ℤ◌, ltb_ℤ, int_laws, ltb_ℤ→le, le→ltb_ℤ, lt→ltb_ℤ}
use zentto_web.Money.{Text}
use zentto_web.Money.Amount.{Amount}
use zentto_web.Errors.{Error, unique_violation, insufficient_balance}
use zentto_web.Database.{Database, Account, User, Payment, user}
use zentto_web.Action.{returned, thrown}
use zentto_web.Ledger.{
  JournalLeg, owns, account_of, accounts_with, id_after, balance_of, held_of, available_of,
  save_legs,
}
use zentto_web.Ledger.Accounts.{
  Descending, account_ids_differ, accounts_with-Descending, account_of_found,
}
use zentto_web.Ledger.Journal.{Accepted, effect, post_journal-Accepted, post_journal_cases}
use zentto_web.Payments.{
  find_payment, both_legs, incoming_key, outgoing, incoming, transfer_transaction,
}
use zentto_web.Payments.Store.{insert_payment_new, insert_payment_dup, find_payment_other}

pub both_legs-Accepted :
    (from to : ℕ) (amount : Amount) (asset : ℕ)
    → pos 0 <ℤ amount.base
    → Accepted (both_legs from to amount asset)
both_legs-Accepted from to amount asset h = (omega arith, (h, (h, tt)), refl)

-- What the two legs add to the accounts.
pub both_legs-effect :
    (from to : ℕ) (amount : Amount) (asset : ℕ)
    → from ≢ to
    → (effect from (both_legs from to amount asset) ≡ pos 0 -ℤ amount.stored)
      × (effect to (both_legs from to amount asset) ≡ amount.stored)
      × ((a : ℕ) → a ≢ from → a ≢ to → effect a (both_legs from to amount asset) ≡ pos 0)
both_legs-effect from to amount asset ne = (
  rw (==_refl from, ne→== to from (λ e. ne (sym e))) (omega int_laws),
  rw (==_refl to, ne→== from to ne) (omega int_laws),
  λ a nf nt. rw (ne→== from a (λ e. nf (sym e)), ne→== to a (λ e. nt (sym e))),
)

module _ (user_id : ℕ) (recipient : User) (sender : Option User) (asset : ℕ) (amount : Amount)
    (key : Text) (db : Database) where
  -- The database when both accounts are there, and the two accounts.
  abbrev pub from_account : Account
  from_account = account_of user user_id asset db

  abbrev pub with_from : Database
  with_from = record db {
    accounts = accounts_with user user_id asset db;
    next_id = id_after user user_id asset db;
  }

  abbrev pub to_account : Account
  to_account = account_of user recipient.id asset with_from

  abbrev pub with_both : Database
  with_both = record with_from {
    accounts = accounts_with user recipient.id asset with_from;
    next_id = id_after user recipient.id asset with_from;
  }

  abbrev pub payment_row : Payment
  payment_row =
      outgoing with_both.next_id user_id recipient asset amount key from_account.id to_account.id

  abbrev pub mirror_row : Payment
  mirror_row = incoming (suc with_both.next_id) sender user_id payment_row recipient

  abbrev before_row : Database
  before_row = record with_both { next_id = suc with_both.next_id }

  abbrev before_mirror : Database
  before_mirror = record with_both {
    next_id = suc (suc with_both.next_id);
    payments = payment_row ∷ db.payments;
  }

  abbrev pub with_rows : Database
  with_rows = record with_both {
    next_id = suc (suc with_both.next_id);
    payments = mirror_row ∷ payment_row ∷ db.payments;
  }

  abbrev pub legs : List JournalLeg
  legs = both_legs from_account.id to_account.id amount asset

  abbrev pub transferred : Database
  transferred = save_legs with_both.next_id legs with_rows

  available_same : available_of from_account.id with_both ≡ available_of from_account.id db
  unfolding available_of balance_of held_of
  available_same = refl

  -- When the sender's key is new, the recipient's mirror key is new, and the amount is above zero and
  -- covered, the transaction succeeds.
  pub transfer_transaction_ok :
      user_id ≢ recipient.id
      → find_payment user_id key db.payments ≡ none
      → find_payment recipient.id (incoming_key key) db.payments ≡ none
      → pos 0 <ℤ amount.base
      → amount.base ≤ℤ available_of from_account.id db
      → transfer_transaction user_id recipient sender asset amount key db
        ≡ returned payment_row transferred
  unfolding transfer_transaction
  transfer_transaction_ok ne new new_in positive covered = rw (
    available_same,
    le→ltb_ℤ (available_of from_account.id db) amount.base covered,
    insert_payment_new payment_row before_row new,
    insert_payment_new mirror_row before_mirror
        (find_payment_other recipient.id (incoming_key key) payment_row db.payments ne ∙ new_in),
    post_journal-Accepted with_both.next_id legs with_rows
        (both_legs-Accepted from_account.id to_account.id amount asset positive),
  )

  -- An amount above what is available is refused, and nothing is written.
  pub transfer_transaction_short :
      available_of from_account.id db <ℤ amount.base
      → transfer_transaction user_id recipient sender asset amount key db
        ≡ thrown insufficient_balance db
  unfolding transfer_transaction
  transfer_transaction_short short =
      rw (available_same, lt→ltb_ℤ (available_of from_account.id db) amount.base short)

  -- Either the transfer goes through, with an amount above zero that was covered, or it throws and the
  -- database is as it was.
  pub transfer_transaction_cases :
      ((pos 0 <ℤ amount.base)
        × (amount.base ≤ℤ available_of from_account.id db)
        × (find_payment user_id key db.payments ≡ none)
        × (find_payment recipient.id (incoming_key key) (payment_row ∷ db.payments) ≡ none)
        × (transfer_transaction user_id recipient sender asset amount key db
            ≡ returned payment_row transferred))
      ⊎ ((e : Error) × (transfer_transaction user_id recipient sender asset amount key db
            ≡ thrown e db))
  unfolding transfer_transaction
  transfer_transaction_cases =
      elim (Bool-cases (ltb_ℤ (available_of from_account.id db) amount.base)) [
        | inl short ↦ inr (insufficient_balance, rw (available_same, short))
        | inr covered ↦ elim (Option-cases (find_payment user_id key db.payments)) [
          | inr (q, dup) ↦ inr (
            unique_violation,
            rw (available_same, covered, insert_payment_dup payment_row before_row dup),
          )
          | inl new ↦
              elim (Option-cases
                (find_payment recipient.id (incoming_key key) (payment_row ∷ db.payments))) [
                  | inr (q, dup) ↦ inr (
                    unique_violation,
                    rw (
                      available_same,
                      covered,
                      insert_payment_new payment_row before_row new,
                      insert_payment_dup mirror_row before_mirror dup,
                    ),
                  )
                  | inl new_in ↦ elim (post_journal_cases with_both.next_id legs with_rows) [
                    | inr (e, bad) ↦ inr (
                      e,
                      rw (
                        available_same,
                        covered,
                        insert_payment_new payment_row before_row new,
                        insert_payment_new mirror_row before_mirror new_in,
                        bad,
                      ),
                    )
                    | inl (acc, good) ↦ inl (
                      acc.1.0,
                      ltb_ℤ→le (available_of from_account.id db) amount.base covered,
                      new,
                      new_in,
                      rw (
                        available_same,
                        covered,
                        insert_payment_new payment_row before_row new,
                        insert_payment_new mirror_row before_mirror new_in,
                        good,
                      ),
                    )
                  ]
                ]
        ]
      ]

  -- With the recipient's mirror key taken, a covered transfer meets the unique index.
  pub transfer_transaction_clash :
      {q : Payment}
      → user_id ≢ recipient.id
      → find_payment user_id key db.payments ≡ none
      → find_payment recipient.id (incoming_key key) db.payments ≡ some q
      → amount.base ≤ℤ available_of from_account.id db
      → transfer_transaction user_id recipient sender asset amount key db
        ≡ thrown unique_violation db
  unfolding transfer_transaction
  transfer_transaction_clash ne new taken covered = rw (
    available_same,
    le→ltb_ℤ (available_of from_account.id db) amount.base covered,
    insert_payment_new payment_row before_row new,
    insert_payment_dup mirror_row before_mirror
        (find_payment_other recipient.id (incoming_key key) payment_row db.payments ne ∙ taken),
  )

-- The rows of the accounts have ids that fall, so an id names one account.
abbrev pub HasAccounts : Database → Type 0
HasAccounts db = Descending db.next_id db.accounts

two_users_apart :
    (u v a : ℕ) → u ≢ v → (acc : Account) → owns user u a acc ≡ true → owns user v a acc ≡ false
two_users_apart u v a ne acc h = ground arith

module _ (user_id : ℕ) (recipient : User) (sender : Option User) (asset : ℕ) (amount : Amount)
    (key : Text) (db : Database) where
  -- Two users have two accounts.
  pub transfer_accounts_differ :
      HasAccounts db
      → user_id ≢ recipient.id
      → (from_account user_id recipient sender asset amount key db).id
        ≢ (to_account user_id recipient sender asset amount key db).id
  transfer_accounts_differ acc ne =
      account_ids_differ user user user_id recipient.id asset
        (with_from user_id recipient sender asset amount key db)
        (accounts_with-Descending user user_id asset db acc)
        (account_of_found user user_id asset db) (two_users_apart user_id recipient.id asset ne)
