-- ===== src/Indexer/Credit.antt =====
-- creditDeposit: all or nothing, once, and what it does to the ledger.
use zentto_web.Prelude.{
  ℕ, suc, ◌≡◌, ◌⊎◌, inl, inr, sym, ◌∙◌, true, false, none, some, List, ◌∷◌, ==_refl, Option-cases,
  is_some,
}
use zentto_web.Money.Amount.{Amount}
use zentto_web.Errors.{Error, unique_violation, ok, Result-cases}
use zentto_web.Database.{
  Database, Account, user, system, custody_owner, fee_account, Payment, ChainDeposit,
}
use zentto_web.Action.{returned, thrown}
use zentto_web.Fees.{Rates, FeeQuote, quote_deposit}
use zentto_web.Ledger.{account_of, accounts_with, id_after, save_legs, JournalLeg}
use zentto_web.Ledger.Journal.{Accepted, post_journal_cases}
use zentto_web.Ledger.Split.{split_legs}
use zentto_web.Payments.{find_payment}
use zentto_web.Payments.Store.{insert_payment_new, insert_payment_dup}
use zentto_web.Indexer.Failures.{post_journal_error, quote_deposit_error}
use zentto_web.Indexer.{
  Transfer, find_deposit, deposit_key, deposit_payment, insert_deposit, record_credit,
  credit_transaction, is_unique_violation, on_duplicate, credit_deposit,
}

-- The row of a deposit that is recorded is found.
pub find_deposit_head :
    (d : ChainDeposit) (ds : List ChainDeposit)
    → find_deposit d.network d.tx_hash d.log_index (d ∷ ds) ≡ some d
unfolding find_deposit
find_deposit_head d ds = rw (==_refl d.network, ==_refl d.tx_hash, ==_refl d.log_index)

-- The deposit, or its payment, is in the tables.
abbrev pub IsBooked : ℕ → ℕ → Transfer → Database → Type 0
IsBooked network user_id t db =
    (is_some (find_payment user_id (deposit_key network t) db.payments) ≡ true)
    ⊎ (is_some (find_deposit network t.tx_hash t.log_index db.chain_deposits) ≡ true)

module _ (user_id asset : ℕ) where
  -- The accounts of custody, of the user and of the treasury, and the database with them.
  abbrev pub custody : Database → Account
  custody db = account_of system custody_owner asset db

  abbrev pub with_custody : Database → Database
  with_custody db = record db {
    accounts = accounts_with system custody_owner asset db;
    next_id = id_after system custody_owner asset db;
  }

  abbrev pub credited : Database → Account
  credited db = account_of user user_id asset (with_custody db)

  abbrev pub with_user : Database → Database
  with_user db = record (with_custody db) {
    accounts = accounts_with user user_id asset (with_custody db);
    next_id = id_after user user_id asset (with_custody db);
  }

  abbrev pub treasury : Database → Account
  treasury db = account_of system fee_account asset (with_user db)

  abbrev pub with_treasury : Database → Database
  with_treasury db = record (with_user db) {
    accounts = accounts_with system fee_account asset (with_user db);
    next_id = id_after system fee_account asset (with_user db);
  }

module _ (rates : Rates) (network token_address user_id : ℕ) (t : Transfer) (amount : Amount)
    (asset : ℕ) where
  abbrev pub deposit_legs : Database → FeeQuote → List JournalLeg
  deposit_legs db quote =
      split_legs (custody user_id asset db).id (credited user_id asset db).id
        (treasury user_id asset db).id amount quote.net quote.platform_fee asset

  abbrev pub booked_payment : Account → Account → FeeQuote → Database → Payment
  booked_payment from to quote db =
      deposit_payment db.next_id network user_id t amount asset from to quote

  -- The database that the writes leave.
  abbrev pub journalled : Account → Account → Account → FeeQuote → Database → Database
  journalled from to fees quote db =
      save_legs db.next_id
        (split_legs from.id to.id fees.id amount quote.net quote.platform_fee asset)
        (record db {
          next_id = suc db.next_id;
          payments = booked_payment from to quote db ∷ db.payments;
        })

  abbrev pub booked_deposit : Account → Account → Account → FeeQuote → Database → ChainDeposit
  booked_deposit from to fees quote db = record {
    id = (journalled from to fees quote db).next_id;
    network = network;
    tx_hash = t.tx_hash;
    log_index = t.log_index;
    token_address = token_address;
    asset = asset;
    user_id = user_id;
    amount = amount;
    block_number = t.block_number;
    payment_id = some db.next_id;
  }

  abbrev pub booked : Account → Account → Account → FeeQuote → Database → Database
  booked from to fees quote db = record (journalled from to fees quote db) {
    next_id = suc (journalled from to fees quote db).next_id;
    chain_deposits = booked_deposit from to fees quote db ∷ db.chain_deposits;
  }

  abbrev pub IsNew : Database → Type 0
  IsNew db =
      (find_payment user_id (deposit_key network t) db.payments ≡ none)
      × (find_deposit network t.tx_hash t.log_index db.chain_deposits ≡ none)

  record_credit-cases :
      (from to fees : Account) (quote : FeeQuote) (db : Database)
      → (IsNew db
          × Accepted (split_legs from.id to.id fees.id amount quote.net quote.platform_fee asset)
          × (record_credit network token_address user_id t amount asset from to fees quote db
              ≡ returned true (booked from to fees quote db)))
        ⊎ ((e : Error) × (db' : Database) × (record_credit network token_address user_id t amount
                asset from to fees quote db
              ≡ thrown e db')
            × (is_unique_violation e ≡ true → IsBooked network user_id t db))
  unfolding record_credit insert_deposit
  record_credit-cases from to fees quote db =
      let db1 : Database = record db { next_id = suc db.next_id } in
      let p = booked_payment from to quote db in
      let legs = split_legs from.id to.id fees.id amount quote.net quote.platform_fee asset in
      let db2 : Database = record db1 { payments = p ∷ db.payments } in
      let db3 : Database = record (journalled from to fees quote db) {
        next_id = suc (journalled from to fees quote db).next_id;
      } in
      elim (Option-cases (find_payment user_id (deposit_key network t) db.payments)) [
        | inr (q, there) ↦
            inr (unique_violation, db1, rw (insert_payment_dup p db1 there), λ h. inl (rw there))
        | inl new ↦ elim (post_journal_cases db.next_id legs db2) [
          | inr (e, bad) ↦ inr (
            e,
            db2,
            rw (insert_payment_new p db1 new, bad),
            λ h. absurd (clash (sym h ∙ post_journal_error db.next_id legs db2 db2 e bad)),
          )
          | inl (acc, good) ↦
              elim (Option-cases (find_deposit network t.tx_hash t.log_index db.chain_deposits)) [
                | inr (d, known) ↦ inr (
                  unique_violation,
                  db3,
                  rw (insert_payment_new p db1 new, good, known),
                  λ h. inr (rw known),
                )
                | inl fresh ↦
                    inl ((new, fresh), acc, rw (insert_payment_new p db1 new, good, fresh))
              ]
        ]
      ]
    where
      clash : true ≡ false → ⊥
      clash h = cc

  -- The database after a deposit was credited.
  abbrev pub credited_db : Database → FeeQuote → Database
  credited_db db quote =
      booked (custody user_id asset db) (credited user_id asset db) (treasury user_id asset db)
        quote (with_treasury user_id asset db)

  -- The transaction books the deposit, or it throws and leaves the database as it was.
  pub credit_transaction-cases :
      (db : Database)
      → ((quote : FeeQuote) × (quote_deposit rates amount ≡ ok quote)
          × IsNew db
          × Accepted (deposit_legs db quote)
          × (credit_transaction rates network token_address user_id t amount asset db
              ≡ returned true (credited_db db quote)))
        ⊎ ((e : Error) × (credit_transaction rates network token_address user_id t amount asset db
              ≡ thrown e db)
            × (is_unique_violation e ≡ true → IsBooked network user_id t db))
  unfolding credit_transaction
  credit_transaction-cases db = elim (Result-cases (quote_deposit rates amount)) [
    | inr (e, bad) ↦
        inr (e, rw bad, λ h. absurd (clash (sym h ∙ quote_deposit_error rates amount e bad)))
    | inl (quote, good) ↦
        elim (record_credit-cases (custody user_id asset db) (credited user_id asset db)
          (treasury user_id asset db) quote (with_treasury user_id asset db)) [
            | inr (e, db', thrown_there, why) ↦ inr (e, rw (good, thrown_there), why)
            | inl (new, acc, done) ↦ inl (quote, good, new, acc, rw (good, done))
          ]
  ]
    where
      clash : true ≡ false → ⊥
      clash h = cc

  -- What creditDeposit does: nothing where the deposit is recorded; or it books it; or the database stays as
  -- the others left it, and it returns false on a unique violation and throws on any other error.
  pub credit_deposit-cases :
      (others : Database → Database) (db : Database)
      → let out = credit_deposit others rates network token_address user_id t amount asset db in
        ((d : ChainDeposit) × (find_deposit network t.tx_hash t.log_index db.chain_deposits
            ≡ some d)
          × (out ≡ returned false db))
        ⊎ (((quote : FeeQuote) × (quote_deposit rates amount ≡ ok quote)
              × IsNew (others db)
              × Accepted (deposit_legs (others db) quote)
              × (out ≡ returned true (credited_db (others db) quote)))
            ⊎ ((find_deposit network t.tx_hash t.log_index db.chain_deposits ≡ none)
                × (e : Error) × (is_unique_violation e ≡ true
                    → IsBooked network user_id t (others db))
                × (out ≡ on_duplicate e (others db))))
  unfolding credit_deposit
  credit_deposit-cases others db =
      elim (Option-cases (find_deposit network t.tx_hash t.log_index db.chain_deposits)) [
        | inr (d, known) ↦ inl (d, known, rw known)
        | inl new ↦ elim (credit_transaction-cases (others db)) [
          | inl (quote, priced, fresh, acc, done) ↦
              inr (inl (quote, priced, fresh, acc, rw (new, done)))
          | inr (e, bad, why) ↦ inr (inr (new, e, why, rw (new, bad)))
        ]
      ]
