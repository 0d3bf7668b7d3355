-- ===== src/Market/Release.antt =====
-- The release of a trade: the seller pays, the buyer receives the net amount, the treasury the fee.
use zentto_web.Prelude.{
  ℕ, ◌≡◌, ◌≢◌, ◌⊎◌, refl, ◌∙◌, Option, none, some, List, arith, inl, inr, true, false, ==_refl,
}
use zentto_web.Prelude.Int.{pos, ◌+ℤ◌, ◌-ℤ◌, ◌≤ℤ◌, ◌<ℤ◌, int_laws}
use zentto_web.Database.{
  Database, Account, Trade, TradeStatus, Hold, HoldStatus, user, system, fee_account,
}
use zentto_web.Action.{returned, thrown, after, has_returned}
use zentto_web.Errors.{Error, ok, Result-cases}
use zentto_web.Fees.{Rates, FeeQuote, quote_p2p}
use zentto_web.Ledger.{
  new_account, JournalLeg, owns, account_of, accounts_with, id_after, balance_of, held_of,
  available_of, save_legs,
}
use zentto_web.Ledger.Accounts.{
  account_ids_differ, accounts_with-Descending, account_of_found, account_stays,
}
use zentto_web.Ledger.Holds.{Descending, find_hold, kept, sum_holds-update}
use zentto_web.Ledger.Journal.{
  Accepted, effect, post_journal-Accepted, post_journal_cases, sum_entries-leg_entries,
}
use zentto_web.Ledger.Split.{split_legs, split_legs-Accepted, split_legs-shares, posted_fee}
use zentto_web.Payments.Transfer.{HasAccounts}
use zentto_web.Market.{find_trade, get_trade, update_trades, in_progress, set_if_held}
use zentto_web.Market.Trades.{release, confirm_transaction}

pub set_if_held_eq :
    (o : Option ℕ) (s : HoldStatus) (db : Database)
    → set_if_held o s db ≡ returned tt (after (set_if_held o s db))
set_if_held_eq none s db = refl
set_if_held_eq (some k) s db = refl

pub set_if_held_rest :
    (o : Option ℕ) (s : HoldStatus) (db : Database)
    → let db' = after (set_if_held o s db) in (db'.trades ≡ db.trades) × (db'.entries ≡ db.entries)
set_if_held_rest none s db = (refl, refl)
set_if_held_rest (some k) s db = (refl, refl)

module _ (r : Rates) (t : Trade) (q : FeeQuote) (db : Database) where
  abbrev pub seller : Account
  seller = account_of user t.seller_user_id t.asset db

  abbrev with_seller : Database
  with_seller = record db {
    accounts = accounts_with user t.seller_user_id t.asset db;
    next_id = id_after user t.seller_user_id t.asset db;
  }

  abbrev pub buyer : Account
  buyer = account_of user t.buyer_user_id t.asset with_seller

  abbrev with_buyer : Database
  with_buyer = record with_seller {
    accounts = accounts_with user t.buyer_user_id t.asset with_seller;
    next_id = id_after user t.buyer_user_id t.asset with_seller;
  }

  abbrev pub fees : Account
  fees = account_of system fee_account t.asset with_buyer

  abbrev pub with_fees : Database
  with_fees = record with_buyer {
    accounts = accounts_with system fee_account t.asset with_buyer;
    next_id = id_after system fee_account t.asset with_buyer;
  }

  abbrev pub committed_db : Database
  committed_db = after (set_if_held t.hold_id HoldStatus.committed with_fees)

  abbrev pub legs : List JournalLeg
  legs = split_legs seller.id buyer.id fees.id t.amount q.net q.platform_fee t.asset

  abbrev pub released : Database
  released = save_legs t.id legs committed_db

  release_ok : quote_p2p r t.amount ≡ ok q → Accepted legs → release r t db ≡ returned q released
  unfolding release
  release_ok hq acc = rw (
    hq,
    set_if_held_eq t.hold_id HoldStatus.committed with_fees,
    post_journal-Accepted t.id legs committed_db acc,
  )

-- A release returns and leaves the trades, or it throws.
pub release_cases :
    (r : Rates) (t : Trade) (db : Database)
    → ((q : FeeQuote) × (d : Database) × (release r t db ≡ returned q d) × (d.trades ≡ db.trades))
      ⊎ ((e : Error) × (d : Database) × (release r t db ≡ thrown e d))
unfolding release
release_cases r t db = elim (Result-cases (quote_p2p r t.amount)) [
  | inr (x, bad) ↦ inr (x, after (release r t db), rw bad)
  | inl (q, good) ↦
      let committed = committed_db r t q db in
      elim (post_journal_cases t.id (legs r t q db) committed) [
        | inl (acc, e) ↦ inl (
          q,
          released r t q db,
          rw (good, set_if_held_eq t.hold_id HoldStatus.committed (with_fees r t q db), e),
          (set_if_held_rest t.hold_id HoldStatus.committed (with_fees r t q db)).0,
        )
        | inr (x, e) ↦ inr (
          x,
          committed,
          rw (good, set_if_held_eq t.hold_id HoldStatus.committed (with_fees r t q db), e),
        )
      ]
]

user_not_system :
    (o v a : ℕ) (acc : Account) → owns user o a acc ≡ true → owns system v a acc ≡ false
user_not_system o v a acc h = ground arith

two_users :
    (u v a : ℕ) → u ≢ v → (acc : Account) → owns user u a acc ≡ true → owns user v a acc ≡ false
two_users u v a ne acc h = ground arith

module _ (r : Rates) (t : Trade) (q : FeeQuote) (db : Database) where
  release_accounts_differ :
      HasAccounts db
      → t.seller_user_id ≢ t.buyer_user_id
      → ((seller r t q db).id ≢ (buyer r t q db).id)
        × ((seller r t q db).id ≢ (fees r t q db).id)
        × ((buyer r t q db).id ≢ (fees r t q db).id)
  release_accounts_differ acc ne =
      let d = accounts_with-Descending user t.seller_user_id t.asset db acc in
      let d' = accounts_with-Descending user t.buyer_user_id t.asset (with_seller r t q db) d in
      let there = account_of_found user t.seller_user_id t.asset db in
      (
        account_ids_differ user user t.seller_user_id t.buyer_user_id t.asset (with_seller r t q db)
            d there (two_users t.seller_user_id t.buyer_user_id t.asset ne),
        account_ids_differ user system t.seller_user_id fee_account t.asset (with_buyer r t q db) d'
            (account_stays user user t.seller_user_id t.buyer_user_id t.asset t.asset
              (with_seller r t q db) there (not_new ne))
            (user_not_system t.seller_user_id fee_account t.asset),
        account_ids_differ user system t.buyer_user_id fee_account t.asset (with_buyer r t q db) d'
            (account_of_found user t.buyer_user_id t.asset (with_seller r t q db))
            (user_not_system t.buyer_user_id fee_account t.asset),
      )
    where
      not_new :
          t.seller_user_id ≢ t.buyer_user_id
          → owns user t.seller_user_id t.asset
              (new_account user t.buyer_user_id t.asset (with_seller r t q db))
            ≡ false
      not_new ne = ground arith

  abbrev confirmed : Database
  confirmed = record (released r t q db) {
    trades =
        update_trades (record t { fee_amount = q.platform_fee; status = TradeStatus.completed })
          (released r t q db).trades;
  }

  confirm_ok :
      find_trade t.id db.trades ≡ some t
      → in_progress t.status ≡ true
      → quote_p2p r t.amount ≡ ok q
      → Accepted (legs r t q db)
      → confirm_transaction r t.seller_user_id t.id db ≡ returned tt confirmed
  unfolding confirm_transaction get_trade
  confirm_ok there going hq acc =
      simp (there, going, ==_refl t.seller_user_id) (rw (release_ok r t q db hq acc))

  balance_of-confirmed :
      (a : ℕ) → balance_of a confirmed ≡ balance_of a db +ℤ effect a (legs r t q db)
  unfolding balance_of
  balance_of-confirmed a =
      sum_entries-leg_entries a t.id (committed_db r t q db).next_id (legs r t q db)
        (committed_db r t q db).entries
      ∙ rw (set_if_held_rest t.hold_id HoldStatus.committed (with_fees r t q db)).1

  available_of-confirmed :
      (a k : ℕ) {h : Hold}
      → t.hold_id ≡ some k
      → Descending db.next_id db.holds
      → find_hold k db.holds ≡ some h
      → available_of a confirmed ≡ available_of a db +ℤ kept a h +ℤ effect a (legs r t q db)
  unfolding available_of held_of
  available_of-confirmed a k held d e = rw (balance_of-confirmed a) (
      rw (held, ← sum_holds-update a db.next_id k HoldStatus.committed db.holds d e refl)
        (omega int_laws))

  -- A seller's confirmation of a trade in progress, between two users, whose hold keeps back just the amount on the
  -- seller's account, with a quote that splits the amount into a net above zero and a fee of zero or
  -- more: it returns, the seller's balance falls by the amount while what is available stays as it
  -- was, the buyer receives the net amount and the treasury the fee.
  pub confirm_transaction_pays :
      (k : ℕ) {h : Hold}
      → HasAccounts db
      → Descending db.next_id db.holds
      → t.seller_user_id ≢ t.buyer_user_id
      → find_trade t.id db.trades ≡ some t
      → in_progress t.status ≡ true
      → t.hold_id ≡ some k
      → find_hold k db.holds ≡ some h
      → kept (seller r t q db).id h ≡ t.amount.stored
      → quote_p2p r t.amount ≡ ok q
      → pos 0 <ℤ q.net.base
      → pos 0 ≤ℤ q.platform_fee.base
      → t.amount.base ≡ q.net.base +ℤ q.platform_fee.base
      → let out = confirm_transaction r t.seller_user_id t.id db in
        let paid =
          posted_fee
            (seller r t q db).id
            (buyer r t q db).id
            (fees r t q db).id
            t.amount
            q.net
            q.platform_fee
            t.asset in
        (has_returned out ≡ true)
        × (balance_of (seller r t q db).id (after out)
            ≡ balance_of (seller r t q db).id db -ℤ t.amount.stored)
        × (available_of (seller r t q db).id (after out) ≡ available_of (seller r t q db).id db)
        × (balance_of (buyer r t q db).id (after out)
            ≡ balance_of (buyer r t q db).id db +ℤ q.net.stored)
        × (balance_of (fees r t q db).id (after out) ≡ balance_of (fees r t q db).id db +ℤ paid)
  confirm_transaction_pays k acc d ne there going held found keeps hq net fee_ok sum =
      let apart = release_accounts_differ acc ne in
      let accepted =
        split_legs-Accepted (seller r t q db).id (buyer r t q db).id (fees r t q db).id t.amount
          q.net q.platform_fee t.asset net fee_ok sum in
      let shares =
        split_legs-shares (seller r t q db).id (buyer r t q db).id (fees r t q db).id t.amount q.net
          q.platform_fee t.asset apart.0 apart.1 apart.2 in
      rw (confirm_ok there going hq accepted) (
        refl,
        rw (balance_of-confirmed (seller r t q db).id) (rw shares.0 (omega int_laws)),
        rw (available_of-confirmed (seller r t q db).id k held d found)
            (rw (keeps, shares.0) (omega int_laws)),
        rw (balance_of-confirmed (buyer r t q db).id) (rw shares.1 (omega int_laws)),
        rw (balance_of-confirmed (fees r t q db).id) (rw shares.2 (omega int_laws)),
      )
