-- ===== src/Payments.antt =====
-- payments/payments.service.ts: internal transfers and the development faucet, idempotent by a key.
pub mod Store
pub mod Idempotency
pub mod Transfer
pub mod Funds
use zentto_web.Prelude.{
  ℕ, Bool, true, false, not, ◌&&◌, ◌||◌, Option, none, some, List, [], ◌∷◌, ◌++◌, ◌==◌,
  if◌then◌else◌, find, is_some,
}
use zentto_web.Prelude.Texts.{text_eq}
use zentto_web.Prelude.Int.{ℤ, pos, ltb_ℤ, leb_ℤ}
use zentto_web.Money.{Text}
use zentto_web.Money.Amount.{Amount, is_positive}
use zentto_web.Errors.{
  Error, Result, ok, err, unique_violation, asset_not_supported, amount_not_positive, not_found,
  faucet_disabled, faucet_limit, unknown_recipient, self_transfer, insufficient_balance,
}
use zentto_web.Database.{
  Database, user, system, issuer_owner, Account, Direction, User, Payment, PaymentType, Metadata,
  no_metadata,
}
use zentto_web.Database
use zentto_web.Action.{
  Action, returned, thrown, try_catch, ◌>>=◌, ◌>>◌, gets, or_throw, throw_if, pure, modify,
  random_uuid, transaction,
}
use zentto_web.Environment.{Environment}
use zentto_web.Auth.{find_user, assert_step_up}
use zentto_web.Ledger.{
  JournalLeg, Balance, get_or_create_account, available_of, balance_for, post_journal,
}

-- `findOne({ where: { userId, idempotencyKey } })`
unfoldable pub find_payment : ℕ → Text → List Payment → Option Payment
find_payment user_id key =
    find (λ (p : Payment). p.user_id == user_id && text_eq p.idempotency_key key)

-- `save` of a new row, under the unique index on (userId, idempotencyKey).
unfoldable pub insert_payment : Payment → Action (Unit {0})
insert_payment p = do
  dup ← gets (λ db. find_payment p.user_id p.idempotency_key db.payments)
  throw_if (is_some dup) unique_violation
  modify (λ db. record db { payments = p ∷ db.payments })

unfoldable pub member : ℕ → List ℕ → Bool
member a [] = false
member a (x ∷ xs) = x == a || member a xs

-- assertAsset
unfoldable pub assert_asset : Environment → ℕ → Action ℕ
unfolding member
assert_asset env asset = do
  let a : ℕ = env.trim_upper asset
  throw_if (not (member a env.assets)) asset_not_supported
  pure a

-- assertAmount
abbrev pub assert_amount : Amount → Action (Unit {0})
assert_amount amount = throw_if (not (is_positive amount)) amount_not_positive

-- getPayment
pub get_payment : ℕ → ℕ → Action Payment
get_payment user_id id = do
  found ← gets (λ db. find (λ (p : Payment). p.id == id) db.payments)
  p ← or_throw found not_found
  throw_if (not (p.user_id == user_id)) not_found
  pure p

-- getBalances: one after another, though the source starts the queries together.
pub get_balances : List ℕ → ℕ → Action (List Balance)
get_balances [] user_id = pure []
get_balances (asset ∷ assets) user_id = do
  b ← balance_for user user_id asset
  bs ← get_balances assets user_id
  pure (b ∷ bs)

-- The handler of `runIdempotent`: a unique violation is answered by the payment that is there.
abbrev pub resolve_error : ℕ → Text → Error → Action Payment
resolve_error user_id key unique_violation db = elim (find_payment user_id key db.payments) [
  | some dup ↦ returned dup db
  | none ↦ thrown unique_violation db
]
resolve_error user_id key e db = thrown e db

-- runIdempotent; `others` is what other requests commit between the query and the operation.
unfoldable pub run_idempotent : (Database → Database) → ℕ → Text → Action Payment → Action Payment
run_idempotent others user_id key op = do
  existing ← gets (λ db. find_payment user_id key db.payments)
  elim existing [
    | some p ↦ pure p
    | none ↦ modify others >> try_catch op (resolve_error user_id key)
  ]

-- The two legs of a payment between two accounts.
abbrev pub both_legs : ℕ → ℕ → Amount → ℕ → List JournalLeg
both_legs from to amount asset =
    record { account_id = from; direction = Direction.debit; amount = amount; asset = asset }
    ∷ record { account_id = to; direction = Direction.credit; amount = amount; asset = asset }
    ∷ []

-- The transaction of `credit`.
pub credit_transaction : ℕ → ℕ → Amount → Text → Action Payment
credit_transaction user_id asset amount key = transaction do
  issuer ← get_or_create_account system issuer_owner asset
  user_acc ← get_or_create_account user user_id asset
  id ← random_uuid
  let payment : Payment = record {
    id = id;
    idempotency_key = key;
    user_id = user_id;
    type = PaymentType.faucet_credit;
    asset = asset;
    amount = amount;
    status = Database.PaymentStatus.completed;
    from_account_id = some issuer.id;
    to_account_id = some user_acc.id;
    counterparty = 0;
    metadata = no_metadata;
  }
  insert_payment payment
  post_journal id (both_legs issuer.id user_acc.id amount asset)
  pure payment

-- credit
pub credit : Environment → (Database → Database) → ℕ → ℕ → Amount → Text → Action Payment
credit env others user_id asset_raw amount key = do
  throw_if (not env.faucet_enabled) faucet_disabled
  asset ← assert_asset env asset_raw
  assert_amount amount
  throw_if (ltb_ℤ env.faucet_max.base amount.base) faucet_limit
  run_idempotent others user_id key (credit_transaction user_id asset amount key)

-- The key of the recipient's row: `${idempotencyKey}:in`
abbrev pub incoming_key : Text → Text
incoming_key key = key ++ (b':' ∷ b'i' ∷ b'n' ∷ [])

-- The sender's row and the recipient's mirror row.
abbrev pub outgoing : ℕ → ℕ → User → ℕ → Amount → Text → ℕ → ℕ → Payment
outgoing id user_id recipient asset amount key from to = record {
  id = id;
  idempotency_key = key;
  user_id = user_id;
  type = PaymentType.transfer;
  asset = asset;
  amount = amount;
  status = Database.PaymentStatus.completed;
  from_account_id = some from;
  to_account_id = some to;
  counterparty = recipient.email;
  metadata = no_metadata;
}

abbrev pub incoming : ℕ → Option User → ℕ → Payment → User → Payment
incoming id sender user_id payment recipient = record payment {
  id = id;
  idempotency_key = incoming_key payment.idempotency_key;
  user_id = recipient.id;
  type = PaymentType.receive;
  counterparty = elim sender [ none ↦ user_id | some s ↦ s.email ];
  metadata = record no_metadata { mirror_of = some payment.id };
}

-- The transaction of `transfer`.
unfoldable pub transfer_transaction : ℕ → User → Option User → ℕ → Amount → Text → Action Payment
transfer_transaction user_id recipient sender asset amount key = transaction do
  from ← get_or_create_account user user_id asset
  to ← get_or_create_account user recipient.id asset
  available ← gets (available_of from.id)
  throw_if (ltb_ℤ available amount.base) insufficient_balance
  id ← random_uuid
  let payment : Payment = outgoing id user_id recipient asset amount key from.id to.id
  insert_payment payment
  mirror_id ← random_uuid
  insert_payment (incoming mirror_id sender user_id payment recipient)
  post_journal id (both_legs from.id to.id amount asset)
  pure payment

-- `transfer` of a key that is not there yet.
unfoldable pub transfer_new :
    Environment → (Database → Database) → ℕ → ℕ → ℕ → Amount → Text → Option ℕ → Action Payment
transfer_new env others user_id to_email asset amount key totp_code = do
  let email : ℕ = env.normalize_email to_email
  found ← gets (λ db. find (λ (u : User). u.email == email) db.users)
  recipient ← or_throw found unknown_recipient
  throw_if (recipient.id == user_id) self_transfer
  sender ← gets (find_user user_id)
  assert_step_up env user_id totp_code
  run_idempotent others user_id key (transfer_transaction user_id recipient sender asset amount key)

-- transfer
unfoldable pub transfer :
    Environment → (Database → Database) → ℕ → ℕ → ℕ → Amount → Text → Option ℕ → Action Payment
transfer env others user_id to_email asset_raw amount key totp_code = do
  asset ← assert_asset env asset_raw
  assert_amount amount
  already ← gets (λ db. find_payment user_id key db.payments)
  elim already [
    | some p ↦ pure p
    | none ↦ transfer_new env others user_id to_email asset amount key totp_code
  ]
