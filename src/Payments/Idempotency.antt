-- ===== src/Payments/Idempotency.antt =====
-- Idempotency keys: a key is paid once, retries and races included; and where the mirror row breaks it.
use zentto_web.Prelude.{ℕ, ◌≡◌, ◌≢◌, ap, ◌∙◌, sym, true, false, Option, none, some, ◌∷◌, inl, inr}
use zentto_web.Prelude.Int.{pos, ◌<ℤ◌, ◌≤ℤ◌, lt→ltb_ℤ}
use zentto_web.Money.{Text}
use zentto_web.Money.Amount.{Amount}
use zentto_web.Errors.{unique_violation}
use zentto_web.Database.{Database, User, Payment}
use zentto_web.Action.{Action, returned_inj, thrown_not_returned, returned, thrown, has_returned}
use zentto_web.Environment.{Environment}
use zentto_web.Ledger.{available_of}
use zentto_web.Payments.{
  find_payment, incoming_key, assert_asset, transfer_transaction, transfer, run_idempotent,
  resolve_error,
}
use zentto_web.Payments.Store.{assert_asset_cases, find_payment_head, find_payment_other}
use zentto_web.Payments.Transfer.{
  from_account, payment_row, mirror_row, transfer_transaction_cases, transfer_transaction_clash,
}

-- A key that is there is answered by its payment, whatever the operation and the other requests.
pub run_idempotent_known :
    (others : Database → Database) (user_id : ℕ) (key : Text) (op : Action Payment) (db : Database)
    {p : Payment}
    → find_payment user_id key db.payments ≡ some p
    → run_idempotent others user_id key op db ≡ returned p db
unfolding run_idempotent
run_idempotent_known others user_id key op db h = rw h

-- When another request has committed the key between the query and the operation, and the operation
-- meets the unique index, the caller gets the payment of that request and writes nothing.
pub run_idempotent_race :
    (others : Database → Database) (user_id : ℕ) (key : Text) (op : Action Payment) (db : Database)
    {q : Payment}
    → find_payment user_id key db.payments ≡ none
    → find_payment user_id key (others db).payments ≡ some q
    → op (others db) ≡ thrown unique_violation (others db)
    → run_idempotent others user_id key op db ≡ returned q (others db)
unfolding run_idempotent
run_idempotent_race others user_id key op db h taken clash =
    rw (h, clash) (rw (taken, resolve_error))

-- A repeated transfer, asked for with a key of the sender that is there, returns that payment and changes
-- nothing: no second factor is asked for again, and neither recipient nor amount is compared.
pub transfer_retry :
    (env : Environment) (others : Database → Database) (user_id to_email asset_raw : ℕ)
    (amount : Amount) (key : Text) (totp_code : Option ℕ) (db : Database) {p : Payment}
    → has_returned (assert_asset env asset_raw db) ≡ true
    → pos 0 <ℤ amount.base
    → find_payment user_id key db.payments ≡ some p
    → transfer env others user_id to_email asset_raw amount key totp_code db ≡ returned p db
unfolding transfer
transfer_retry env others user_id to_email asset_raw amount key totp_code db supported positive h =
    elim (assert_asset_cases env asset_raw db) [
      | inl e ↦ rw (e, lt→ltb_ℤ (pos 0) amount.base positive, h)
      | inr e ↦ absurd (false_not_true (ap has_returned (sym e) ∙ supported))
    ]
  where
    false_not_true : false ≡ true → ⊥
    false_not_true k = cc

module _ (user_id : ℕ) (recipient : User) (sender : Option User) (asset : ℕ) (amount : Amount)
    (key : Text) (db : Database) where
  -- A transfer to another user that went through is found under its key, so running it again under that key, with any
  -- operation and any other requests, returns the same payment and changes nothing.
  pub transfer_once :
      {p : Payment} {db' : Database} (others : Database → Database) (op : Action Payment)
      → user_id ≢ recipient.id
      → transfer_transaction user_id recipient sender asset amount key db ≡ returned p db'
      → run_idempotent others user_id key op db' ≡ returned p db'
  transfer_once {p} {db'} others op ne h =
      elim (transfer_transaction_cases user_id recipient sender asset amount key db) [
        | inr (x, e) ↦ absurd (thrown_not_returned (sym e ∙ h))
        | inl (_, _, _, _, e) ↦
            let row = payment_row user_id recipient sender asset amount key db in
            let mirror = mirror_row user_id recipient sender asset amount key db in
            let same = returned_inj (sym e ∙ h) in
            run_idempotent_known others user_id key op db' (
              rw (← same.1) (
                find_payment_other user_id key mirror (row ∷ db.payments) (λ k. ne (sym k))
                ∙ find_payment_head row db.payments
                ∙ ap some same.0))
      ]

  -- The keys of two users are not independent: when any sender has paid the recipient under this key
  -- before, so that the recipient's mirror key is taken, a covered transfer of a new key of the
  -- sender throws the unique violation, and nothing is written.
  pub transfer_mirror_clash :
      {q : Payment}
      → user_id ≢ recipient.id
      → find_payment user_id key db.payments ≡ none
      → find_payment recipient.id (incoming_key key) db.payments ≡ some q
      → amount.base
        ≤ℤ available_of (from_account user_id recipient sender asset amount key db).id db
      → run_idempotent
          (λ d. d)
          user_id
          key
          (transfer_transaction user_id recipient sender asset amount key)
          db
        ≡ thrown unique_violation db
  unfolding run_idempotent
  transfer_mirror_clash ne new taken covered =
      rw
        (
          new,
          transfer_transaction_clash user_id recipient sender asset amount key db ne new taken
              covered,
        )
        (rw (new, resolve_error))
