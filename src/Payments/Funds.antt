-- ===== src/Payments/Funds.antt =====
-- Transfers move the funds that they say, create none, and ask for the second factor.
use zentto_web.Prelude.{ℕ, ◌≡◌, ◌≢◌, refl, ◌∙◌, true, false, Option, none, arith, inl, inr}
use zentto_web.Prelude.Int.{ℤ, pos, ◌+ℤ◌, ◌-ℤ◌, ◌≤ℤ◌, ◌<ℤ◌, int_laws}
use zentto_web.Money.{Text}
use zentto_web.Money.Amount.{Amount, IsExact}
use zentto_web.Database.{Database, User}
use zentto_web.Action.{after, has_returned}
use zentto_web.Environment.{Environment}
use zentto_web.Auth.StepUp.{Proven, assert_step_up_cases}
use zentto_web.Ledger.{balance_of, held_of, available_of}
use zentto_web.Ledger.Journal.{
  effect, net_entries, sum_entries-leg_entries, net_entries-leg_entries,
}
use zentto_web.Payments.{find_payment, incoming_key, transfer_transaction, transfer_new, transfer}
use zentto_web.Payments.Store.{IsUnique, assert_asset_cases}
use zentto_web.Payments.Transfer.{
  HasAccounts, from_account, to_account, with_both, with_rows, legs, transferred, both_legs-effect,
  transfer_transaction_ok, transfer_transaction_cases, transfer_accounts_differ,
}

module _ (user_id : ℕ) (recipient : User) (sender : Option User) (asset : ℕ) (amount : Amount)
    (key : Text) (db : Database) where
  abbrev from_id : ℕ
  from_id = (from_account user_id recipient sender asset amount key db).id

  abbrev to_id : ℕ
  to_id = (to_account user_id recipient sender asset amount key db).id

  abbrev done : Database
  done = transferred user_id recipient sender asset amount key db

  abbrev posted : ℕ → ℤ
  posted a = effect a (legs user_id recipient sender asset amount key db)

  balance_of-done : (a : ℕ) → balance_of a done ≡ balance_of a db +ℤ posted a
  unfolding balance_of
  balance_of-done a =
      sum_entries-leg_entries a (with_both user_id recipient sender asset amount key db).next_id
        (with_rows user_id recipient sender asset amount key db).next_id
        (legs user_id recipient sender asset amount key db) db.entries

  available_of-done : (a : ℕ) → available_of a done ≡ available_of a db +ℤ posted a
  unfolding available_of held_of
  available_of-done a = rw (balance_of-done a) (omega int_laws)

  -- A covered transfer of an amount above zero between two users, under a key that neither has used,
  -- returns; the sender's balance and available funds fall by the amount, the recipient's balance
  -- rises by it, no other account changes, and of an amount that is exact the sender's available
  -- funds do not fall below zero.
  pub transfer_moves_funds :
      HasAccounts db
      → user_id ≢ recipient.id
      → find_payment user_id key db.payments ≡ none
      → find_payment recipient.id (incoming_key key) db.payments ≡ none
      → pos 0 <ℤ amount.base
      → amount.base ≤ℤ available_of from_id db
      → let out = transfer_transaction user_id recipient sender asset amount key db in
        (has_returned out ≡ true)
        × (balance_of from_id (after out) ≡ balance_of from_id db -ℤ amount.stored)
        × (available_of from_id (after out) ≡ available_of from_id db -ℤ amount.stored)
        × (balance_of to_id (after out) ≡ balance_of to_id db +ℤ amount.stored)
        × ((a : ℕ) → a ≢ from_id → a ≢ to_id → balance_of a (after out) ≡ balance_of a db)
        × (IsExact amount → pos 0 ≤ℤ available_of from_id (after out))
  transfer_moves_funds acc ne new new_in positive covered =
      let moved =
        both_legs-effect from_id to_id amount asset
          (transfer_accounts_differ user_id recipient sender asset amount key db acc ne) in
      let low : available_of from_id done ≡ available_of from_id db -ℤ amount.stored =
        rw (available_of-done from_id, moved.0) (omega int_laws) in
      rw
        (transfer_transaction_ok user_id recipient sender asset amount key db ne new new_in positive
          covered)
        (
          refl,
          rw (balance_of-done from_id, moved.0) (omega int_laws),
          low,
          rw (balance_of-done to_id, moved.1) (omega int_laws),
          λ a nf nt. rw (balance_of-done a, moved.2 a nf nt) (omega int_laws),
          λ exact_amount. rw low (rw (← exact_amount) (omega int_laws)),
        )

  net_entries-done : net_entries done.entries ≡ net_entries db.entries
  net_entries-done =
      net_entries-leg_entries (with_both user_id recipient sender asset amount key db).next_id
        (with_rows user_id recipient sender asset amount key db).next_id
        (legs user_id recipient sender asset amount key db) db.entries
      ∙ omega int_laws

  -- On every branch, errors included, a transfer leaves the credits less the debits of the whole
  -- ledger as they were, and no user has one key twice; when it throws, the database is as it was.
  pub transfer_keeps_books :
      IsUnique db.payments
      → let out = transfer_transaction user_id recipient sender asset amount key db in
        (net_entries (after out).entries ≡ net_entries db.entries)
        × IsUnique (after out).payments
        × (has_returned out ≡ false → after out ≡ db)
  transfer_keeps_books u =
      elim (transfer_transaction_cases user_id recipient sender asset amount key db) [
        | inl (_, _, new, new_in, e) ↦ rw e (net_entries-done, (new_in, (new, u)), λ h. cc)
        | inr (x, e) ↦ rw e (refl, u, λ h. refl)
      ]

-- A transfer under a new key that returns was authorised: its sender has the second factor enabled and
-- gave a code that the authenticator accepts for it.
pub transfer_needs_totp :
    (env : Environment) (others : Database → Database) (user_id to_email asset_raw : ℕ)
    (amount : Amount) (key : Text) (totp_code : Option ℕ) (db : Database)
    → find_payment user_id key db.payments ≡ none
    → has_returned (transfer env others user_id to_email asset_raw amount key totp_code db) ≡ true
    → Proven env user_id totp_code db
unfolding transfer transfer_new
transfer_needs_totp env others user_id to_email asset_raw amount key totp_code db new h =
    elim (assert_step_up_cases env user_id totp_code db) [
      | inl (proven, e) ↦ proven
      | inr (x, e) ↦ absurd (ground (arith, assert_asset_cases env asset_raw db))
    ]
