-- ===== src/Indexer/Once.antt =====
-- creditDeposit: a deposit is credited once, and its gross amount is split between the user and the treasury.
use zentto_web.Prelude.{
  ℕ, ◌≡◌, ◌≢◌, inl, inr, refl, sym, ap, ◌∙◌, Bool, true, false, none, some, ◌∷◌, arith,
  if◌then◌else◌, Bool-cases, some_not_none,
}
use zentto_web.Prelude.Int.{ℤ, pos, ◌+ℤ◌, ◌-ℤ◌, ◌≤ℤ◌}
use zentto_web.Money.Amount.{Amount, is_positive}
use zentto_web.Errors.{Error, ok}
use zentto_web.Database.{Database, Account, user, system, custody_owner, fee_account, ChainDeposit}
use zentto_web.Action.{Outcome, returned, after, has_returned, thrown_not_returned}
use zentto_web.Fees.{Rates, FeeQuote, quote_deposit}
use zentto_web.Ledger.{owns, balance_of, sum_entries}
use zentto_web.Ledger.Accounts.{
  account_ids_differ, accounts_with-Descending, account_of_found, account_stays,
}
use zentto_web.Ledger.Journal.{effect, sum_entries-leg_entries}
use zentto_web.Ledger.Split.{split_legs-shares, split_legs_no_net}
use zentto_web.Payments.Transfer.{HasAccounts}
use zentto_web.Indexer.{Transfer, find_deposit, is_unique_violation, on_duplicate, credit_deposit}
use zentto_web.Indexer.Credit.{
  IsBooked, find_deposit_head, custody, with_custody, credited, with_user, treasury, with_treasury,
  deposit_legs, credited_db, booked_deposit, IsNew, credit_deposit-cases,
}

module _ (user_id asset : ℕ) (db : Database) where
  not_user :
      (acc : Account)
      → owns system custody_owner asset acc ≡ true
      → owns user user_id asset acc ≡ false
  not_user acc h = ground arith

  not_fees :
      (acc : Account)
      → owns system custody_owner asset acc ≡ true
      → owns system fee_account asset acc ≡ false
  not_fees acc h = ground arith

  user_not_fees :
      (acc : Account)
      → owns user user_id asset acc ≡ true
      → owns system fee_account asset acc ≡ false
  user_not_fees acc h = ground arith

  deposit_accounts_differ :
      HasAccounts db
      → ((custody user_id asset db).id ≢ (credited user_id asset db).id)
        × ((custody user_id asset db).id ≢ (treasury user_id asset db).id)
        × ((credited user_id asset db).id ≢ (treasury user_id asset db).id)
  deposit_accounts_differ acc =
      let d = accounts_with-Descending system custody_owner asset db acc in
      let d' = accounts_with-Descending user user_id asset (with_custody user_id asset db) d in
      let there = account_of_found system custody_owner asset db in
      (
        account_ids_differ system user custody_owner user_id asset (with_custody user_id asset db) d
            there not_user,
        account_ids_differ system system custody_owner fee_account asset
            (with_user user_id asset db) d'
            (account_stays system user custody_owner user_id asset asset
              (with_custody user_id asset db) there refl)
            not_fees,
        account_ids_differ user system user_id fee_account asset (with_user user_id asset db) d'
            (account_of_found user user_id asset (with_custody user_id asset db)) user_not_fees,
      )

module _ (rates : Rates) (network token_address user_id : ℕ) (t : Transfer) (amount : Amount)
    (asset : ℕ) (others : Database → Database) where
  abbrev Call : Database → Outcome Bool
  Call = credit_deposit others rates network token_address user_id t amount asset

  -- A call that returned true.
  returned_true :
      (db db' : Database)
      → Call db ≡ returned true db'
      → (quote : FeeQuote) × (quote_deposit rates amount ≡ ok quote)
        × IsNew rates network token_address user_id t amount asset (others db)
        × (db' ≡ credited_db rates network token_address user_id t amount asset (others db) quote)
  returned_true db db' done =
      elim (credit_deposit-cases rates network token_address user_id t amount asset others db) [
        | inl (d, known, e) ↦ absurd (not_false (sym e ∙ done))
        | inr (inl (quote, priced, new, acc, e)) ↦ (quote, priced, new, same (sym done ∙ e))
        | inr (inr (none_there, x, bad, e)) ↦ absurd (not_again x (sym e ∙ done))
      ]
    where
      not_false : {a b : Database} → returned false a ≡ returned true b → ⊥
      not_false h = cc

      same : {a b : Database} → returned true a ≡ returned true b → a ≡ b
      same h = cc

      not_again : (x : Error) → on_duplicate x (others db) ≡ returned true db' → ⊥
      not_again x h = elim (Bool-cases (is_unique_violation x)) [
        | inl dup ↦ not_false (rw dup at h)
        | inr other ↦ thrown_not_returned (rw other at h)
      ]

  -- A deposit that is credited was not recorded before, is recorded by one new row, and is never credited again:
  -- whatever calls with its network, transaction and log index follow, by a scan or a webhook, for whatever user
  -- and amount, return false and change nothing.
  pub credit_deposit_once :
      (db db' : Database)
      → Call db ≡ returned true db'
      → (find_deposit network t.tx_hash t.log_index (others db).chain_deposits ≡ none)
        × ((d : ChainDeposit) × (db'.chain_deposits ≡ d ∷ (others db).chain_deposits))
        × ((others' : Database → Database) (rates' : Rates) (token' user' : ℕ) (t' : Transfer)
              (amount' : Amount) (asset' : ℕ)
            → t'.tx_hash ≡ t.tx_hash
            → t'.log_index ≡ t.log_index
            → credit_deposit others' rates' network token' user' t' amount' asset' db'
              ≡ returned false db')
  unfolding credit_deposit
  credit_deposit_once db db' done =
      let (quote, priced, new, e) = returned_true db db' done in
      let there = others db in
      let row =
        booked_deposit rates network token_address user_id t amount asset
          (custody user_id asset there) (credited user_id asset there)
          (treasury user_id asset there) quote (with_treasury user_id asset there) in
      (
        new.1,
        (row, ap Database.chain_deposits e),
        λ others' rates' token' user' t' amount' asset' hash log.
            let known : find_deposit network t'.tx_hash t'.log_index db'.chain_deposits ≡ some row =
              rw (hash, log, e) (find_deposit_head row (others db).chain_deposits) in
            rw known,
      )

  -- A deposit that is credited adds its net amount to the balance of the user, its commission to that of the
  -- treasury, and takes the gross amount from that of custody.
  pub credit_deposit-balance_of :
      (db db' : Database)
      → HasAccounts (others db)
      → Call db ≡ returned true db'
      → (quote : FeeQuote) × (quote_deposit rates amount ≡ ok quote)
        × (balance_of (credited user_id asset (others db)).id db'
            ≡ balance_of (credited user_id asset (others db)).id (others db) +ℤ quote.net.stored)
        × (balance_of (custody user_id asset (others db)).id db'
            ≡ balance_of (custody user_id asset (others db)).id (others db)
              +ℤ (pos 0 -ℤ amount.stored))
        × (balance_of (treasury user_id asset (others db)).id db'
            ≡ balance_of (treasury user_id asset (others db)).id (others db)
              +ℤ (if is_positive quote.platform_fee then quote.platform_fee.stored else pos 0))
  unfolding balance_of
  credit_deposit-balance_of db db' acc done =
      let (quote, priced, new, e) = returned_true db db' done in
      let (from_user, from_fees, user_fees) =
        deposit_accounts_differ user_id asset (others db) acc in
      let from = custody user_id asset (others db) in
      let to = credited user_id asset (others db) in
      let fees = treasury user_id asset (others db) in
      let (less, net, fee) =
        split_legs-shares from.id to.id fees.id amount quote.net quote.platform_fee asset from_user
          from_fees user_fees in
      let start = with_treasury user_id asset (others db) in
      let after_legs : (a : ℕ)
          → sum_entries a db'.entries
            ≡ sum_entries a (others db).entries
              +ℤ effect a (
                  deposit_legs rates network token_address user_id t amount asset (others db)
                    quote) =
        λ a. rw e (
          sum_entries-leg_entries a start.next_id _
            (deposit_legs rates network token_address user_id t amount asset (others db) quote)
            (others db).entries) in
      (
        quote,
        priced,
        after_legs to.id ∙ ap (λ (z : ℤ). sum_entries to.id (others db).entries +ℤ z) net,
        after_legs from.id ∙ ap (λ (z : ℤ). sum_entries from.id (others db).entries +ℤ z) less,
        after_legs fees.id ∙ ap (λ (z : ℤ). sum_entries fees.id (others db).entries +ℤ z) fee,
      )

  -- A deposit whose net amount is not above zero, such as a transfer of nothing or of no more than the fee's
  -- floor, is never credited: as long as it is not booked, the call throws and leaves the database as it was.
  pub credit_deposit_dust :
      (db : Database) (quote : FeeQuote)
      → quote_deposit rates amount ≡ ok quote
      → quote.net.base ≤ℤ pos 0
      → find_deposit network t.tx_hash t.log_index db.chain_deposits ≡ none
      → ¬ IsBooked network user_id t (others db)
      → (has_returned (Call db) ≡ false) × (after (Call db) ≡ others db)
  credit_deposit_dust db quote priced low new not_booked =
      elim (credit_deposit-cases rates network token_address user_id t amount asset others db) [
        | inl (d, known, e) ↦ absurd (some_not_none (sym known ∙ new))
        | inr (inl (q, priced', fresh, acc, e)) ↦
            let same : q ≡ quote = ok_same (sym priced' ∙ priced) in
            absurd (
              split_legs_no_net (custody user_id asset (others db)).id
                (credited user_id asset (others db)).id (treasury user_id asset (others db)).id
                amount q.net q.platform_fee asset (rw same low) acc)
        | inr (inr (none_there, x, why, e)) ↦ elim (Bool-cases (is_unique_violation x)) [
          | inl dup ↦ absurd (not_booked (why dup))
          | inr other ↦ rw (e, other) (refl, refl)
        ]
      ]
    where
      ok_same : {a b : FeeQuote} → ok a ≡ ok b → a ≡ b
      ok_same h = cc
