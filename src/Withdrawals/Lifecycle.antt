-- ===== src/Withdrawals/Lifecycle.antt =====
-- What the request of a withdrawal does to the funds, and how a refund undoes it.
use zentto_web.Prelude.{
  ℕ, suc, ◌≡◌, ◌↔◌, ◌⊎◌, refl, ◌∙◌, sym, true, false, none, some, ◌∷◌, ◌==◌, Bool-cases,
  Option-cases, inl, inr, ==_refl, if◌then◌else◌,
}
use zentto_web.Prelude.Int.{pos, ◌-ℤ◌, ◌≤ℤ◌, ltb_ℤ, int_laws, ltb_ℤ→le, le→ltb_ℤ}
use zentto_web.Money.Amount.{IsExact}
use zentto_web.Errors.{Error, ok, insufficient_balance, unique_violation}
use zentto_web.Database.{Database, Account, Payment, Hold, HoldStatus, user}
use zentto_web.Action.{returned, thrown, after, has_returned}
use zentto_web.Environment.{Environment}
use zentto_web.Fees.{FeeQuote, quote_withdraw}
use zentto_web.Ledger.{
  account_of, accounts_with, id_after, balance_of, held_of, available_of, sum_holds,
}
use zentto_web.Payments.{find_payment}
use zentto_web.Payments.Store.{insert_payment_new, insert_payment_dup}
use zentto_web.Withdrawals.{
  WithdrawRequest, new_withdrawal, with_metadata, update_payments, request_transaction,
}

module _ (env : Environment) (req : WithdrawRequest) (network : ℕ) (quote : FeeQuote)
    (db : Database) where
  abbrev pub requester : Account
  requester = account_of user req.user_id req.asset db

  abbrev with_account : Database
  with_account = record db {
    accounts = accounts_with user req.user_id req.asset db;
    next_id = id_after user req.user_id req.asset db;
  }

  abbrev new_row : Payment
  new_row = new_withdrawal with_account.next_id req network requester quote

  abbrev before_row : Database
  before_row = record with_account { next_id = suc with_account.next_id }

  abbrev hold : Hold
  hold = record {
    id = suc with_account.next_id;
    account_id = requester.id;
    payment_id = some with_account.next_id;
    asset = req.asset;
    amount = quote.total.stored;
    status = HoldStatus.active;
  }

  abbrev pub held_row : Payment
  held_row =
      with_metadata new_row
        (record (new_row.metadata) { hold_id = some (suc with_account.next_id) })

  abbrev pub requested : Database
  requested = record with_account {
    next_id = suc (suc with_account.next_id);
    payments = update_payments held_row (new_row ∷ db.payments);
    holds = hold ∷ db.holds;
  }

  available_same : available_of requester.id with_account ≡ available_of requester.id db
  unfolding available_of balance_of held_of
  available_same = refl

  request_transaction_ok :
      quote_withdraw env.rates req.amount ≡ ok quote
      → find_payment req.user_id req.idempotency_key db.payments ≡ none
      → quote.total.base ≤ℤ available_of requester.id db
      → request_transaction env req network db ≡ returned held_row requested
  unfolding request_transaction
  request_transaction_ok q new covered = rw (
    available_same,
    q,
    le→ltb_ℤ (available_of requester.id db) quote.total.base covered,
    insert_payment_new new_row before_row new,
  )

  abbrev IsOpen : Type 0
  IsOpen =
      (find_payment req.user_id req.idempotency_key db.payments ≡ none)
      × (quote.total.base ≤ℤ available_of requester.id db)

  request_transaction_cases :
      quote_withdraw env.rates req.amount ≡ ok quote
      → (IsOpen × (request_transaction env req network db ≡ returned held_row requested))
        ⊎ ((¬ IsOpen) × ((e : Error) × (request_transaction env req network db ≡ thrown e db)))
  unfolding request_transaction
  request_transaction_cases q =
      elim (Bool-cases (ltb_ℤ (available_of requester.id db) quote.total.base)) [
        | inl short ↦ inr (
          λ (_, covered). absurd (
              true_not_false
                (sym short ∙ le→ltb_ℤ (available_of requester.id db) quote.total.base covered)),
          (insufficient_balance, rw (available_same, q, short)),
        )
        | inr covered ↦
            elim (Option-cases (find_payment req.user_id req.idempotency_key db.payments)) [
              | inr (r, dup) ↦ inr (
                λ (new, _). absurd (some_not_none (sym dup ∙ new)),
                (
                  unique_violation,
                  rw (available_same, q, covered, insert_payment_dup new_row before_row dup),
                ),
              )
              | inl new ↦ inl (
                (new, ltb_ℤ→le (available_of requester.id db) quote.total.base covered),
                rw (available_same, q, covered, insert_payment_new new_row before_row new),
              )
            ]
      ]
    where
      true_not_false : true ≡ false → ⊥
      true_not_false h = cc

      some_not_none : {r : Payment} → some r ≡ none → ⊥
      some_not_none h = cc

  -- With a quote, the transaction of a request returns exactly when the user has not used the key and
  -- the total is covered by what the account has available; when it throws the database is as it was.
  pub request_transaction_iff :
      quote_withdraw env.rates req.amount ≡ ok quote
      → let out = request_transaction env req network db in
        ((has_returned out ≡ true) ↔ (
          (find_payment req.user_id req.idempotency_key db.payments ≡ none)
          × (quote.total.base ≤ℤ available_of requester.id db)))
        × (has_returned out ≡ false → after out ≡ db)
  request_transaction_iff q = elim (request_transaction_cases q) [
    | inl (is_open, e) ↦ rw e ((λ h. is_open, λ o. refl), λ h. cc)
    | inr (shut, (x, e)) ↦ rw e ((λ h. cc, λ o. absurd (shut o)), λ h. refl)
  ]

  available_of-requested :
      (a : ℕ)
      → available_of a requested
        ≡ available_of a db -ℤ (if requester.id == a then quote.total.stored else pos 0)
  unfolding available_of balance_of held_of sum_holds
  available_of-requested a = elim (Bool-cases (requester.id == a)) [
    | inl here ↦ rw here (omega int_laws)
    | inr other ↦ rw other (omega int_laws)
  ]

  -- A request under a new key whose quoted total is covered returns a withdrawal that names a hold; it
  -- lowers what the user's account has available by the stored total, that of no other account, and
  -- writes no entry. Of a total that is exact what is left is not below zero.
  pub request_transaction_holds :
      quote_withdraw env.rates req.amount ≡ ok quote
      → find_payment req.user_id req.idempotency_key db.payments ≡ none
      → quote.total.base ≤ℤ available_of requester.id db
      → let out = request_transaction env req network db in
        (has_returned out ≡ true)
        × ((a : ℕ)
            → available_of a (after out)
              ≡ available_of a db -ℤ (if requester.id == a then quote.total.stored else pos 0))
        × ((after out).entries ≡ db.entries)
        × (IsExact quote.total → pos 0 ≤ℤ available_of requester.id (after out))
  request_transaction_holds q new covered = rw (request_transaction_ok q new covered) (
    refl,
    available_of-requested,
    refl,
    λ whole.
        rw (available_of-requested requester.id, ==_refl requester.id, ← whole) (omega int_laws),
  )
