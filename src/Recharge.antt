-- ===== src/Recharge.antt =====
-- recharge/recharge.service.ts: a user pays an operator in bolívares, and the operator confirms that the
-- user gets the crypto.
pub mod Finished
use zentto_web.Prelude.{
  ℕ, ◌+◌, Bool, true, false, not, ◌&&◌, ◌||◌, Option, none, some, List, [], ◌∷◌, ◌++◌, ltb, ◌==◌,
  if◌then◌else◌, find, take, length,
}
use zentto_web.Prelude.Int.{ℤ, pos, ◌*ℤ◌, div_trunc}
use zentto_web.Money.{Text, trim, is_empty, unit_base}
use zentto_web.Money.Amount.{Amount, exact, is_positive}
use zentto_web.Errors.{
  amount_not_positive, not_found, forbidden, wrong_status, invalid_input, own_order,
}
use zentto_web.Database.{
  Database, user, system, custody_owner, fee_account, Account, Payment, PaymentType, PaymentStatus,
  Metadata, no_metadata, RechargeStatus, RechargeRequest,
}
use zentto_web.Action.{
  Action, ◌>>=◌, ◌>>◌, gets, lift, or_throw, throw_if, pure, modify, random_uuid, transaction,
}
use zentto_web.Environment.{Environment}
use zentto_web.Auth.{assert_step_up}
use zentto_web.Fees.{Rates, FeeQuote, quote_deposit}
use zentto_web.Ledger.{get_or_create_account, post_journal}
use zentto_web.Ledger.Split.{split_legs}
use zentto_web.Payments.{insert_payment}

-- fiatFor, in hundredths: the text keeps the first two decimals of the product.
abbrev pub fiat_for : Amount → Amount → ℤ
fiat_for amount rate_ves =
    div_trunc (div_trunc (amount.base *ℤ rate_ves.base) unit_base) 10000000000000000

abbrev pub same_status : RechargeStatus → RechargeStatus → Bool
same_status RechargeStatus.pending RechargeStatus.pending = true
same_status RechargeStatus.claimed RechargeStatus.claimed = true
same_status RechargeStatus.paid RechargeStatus.paid = true
same_status _ _ = false

abbrev pub find_request : ℕ → List RechargeRequest → Option RechargeRequest
find_request id = find (λ (q : RechargeRequest). q.id == id)

-- `findOne({ where: { id } })`; the amount that is read is the column's.
unfoldable pub get_request : ℕ → Action RechargeRequest
get_request id = do
  found ← gets (λ db. find_request id db.requests)
  q ← or_throw found not_found
  pure (record q { amount = exact q.amount.stored })

unfoldable pub update_requests : RechargeRequest → List RechargeRequest → List RechargeRequest
update_requests q [] = []
update_requests q (p ∷ ps) = (if p.id == q.id then q else p) ∷ update_requests q ps

abbrev pub save_request : RechargeRequest → Action RechargeRequest
save_request q = modify (λ db. record db { requests = update_requests q db.requests }) >> pure q

-- createRequest; `usdc` is the constant ASSET.
unfoldable pub create_request : ℕ → ℕ → Amount → Amount → Action RechargeRequest
create_request usdc user_id amount rate_ves = do
  throw_if (not (is_positive amount)) amount_not_positive
  throw_if (not (is_positive rate_ves)) amount_not_positive
  id ← random_uuid
  let q : RechargeRequest = record {
    id = id;
    user_id = user_id;
    operator_user_id = none;
    asset = usdc;
    amount = amount;
    rate_ves = rate_ves;
    fiat_amount = fiat_for amount rate_ves;
    status = RechargeStatus.pending;
    operator_payment_info = none;
    evidence = none;
    fee_amount = exact (pos 0);
    claimed_at = none;
  }
  modify (λ db. record db { requests = q ∷ db.requests })
  pure q

-- cancel
unfoldable pub cancel : ℕ → ℕ → Action RechargeRequest
cancel user_id id = do
  q ← get_request id
  throw_if (not (q.user_id == user_id)) forbidden
  throw_if
      (not (
        same_status q.status RechargeStatus.pending || same_status q.status RechargeStatus.claimed))
      wrong_status
  save_request (record q { status = RechargeStatus.cancelled })

-- What follows a prefix of a text.
unfoldable pub after_prefix : Text → Text → Option Text
after_prefix [] s = some s
after_prefix (c ∷ p) [] = none
after_prefix (c ∷ p) (d ∷ s) = let rest = after_prefix p s in if c == d then rest else none

abbrev pub starts_with : Text → Text → Bool
starts_with p s = elim (after_prefix p s) [ none ↦ false | some rest ↦ true ]

abbrev pub base64_mark : Text
base64_mark = b';' ∷ b'b' ∷ b'a' ∷ b's' ∷ b'e' ∷ b'6' ∷ b'4' ∷ b',' ∷ []

-- /^data:image\/(png|jpe?g|webp);base64,/
abbrev pub is_image : Text → Bool
is_image s =
    elim (after_prefix
      (b'd' ∷ b'a' ∷ b't' ∷ b'a' ∷ b':' ∷ b'i' ∷ b'm' ∷ b'a' ∷ b'g' ∷ b'e' ∷ b'/' ∷ []) s) [
        | none ↦ false
        | some kind ↦
            starts_with (b'p' ∷ b'n' ∷ b'g' ∷ base64_mark) kind
            || starts_with (b'j' ∷ b'p' ∷ b'g' ∷ base64_mark) kind
            || starts_with (b'j' ∷ b'p' ∷ b'e' ∷ b'g' ∷ base64_mark) kind
            || starts_with (b'w' ∷ b'e' ∷ b'b' ∷ b'p' ∷ base64_mark) kind
      ]

-- validateAttachment
unfoldable pub validate_attachment : Text → Action Text
validate_attachment raw = do
  throw_if (not (is_image raw)) invalid_input
  throw_if (ltb 2800000 (length raw)) invalid_input
  pure raw

-- submitEvidence
unfoldable pub submit_evidence : ℕ → ℕ → Text → Action RechargeRequest
submit_evidence user_id id attachment = do
  q ← get_request id
  throw_if (not (q.user_id == user_id)) forbidden
  throw_if (not (same_status q.status RechargeStatus.claimed)) wrong_status
  image ← validate_attachment attachment
  save_request (record q { evidence = some image; status = RechargeStatus.paid })

-- claim
unfoldable pub claim : ℕ → ℕ → ℕ → Text → Action RechargeRequest
claim now operator_id id operator_payment_info = do
  let info : Text = trim operator_payment_info
  throw_if (is_empty info) invalid_input
  q ← get_request id
  throw_if (not (same_status q.status RechargeStatus.pending)) wrong_status
  throw_if (q.user_id == operator_id) own_order
  save_request (record q {
    operator_user_id = some operator_id;
    operator_payment_info = some (take 1000 info);
    status = RechargeStatus.claimed;
    claimed_at = some now;
  })

-- `recharge:${req.id}`, with the id as one letter.
abbrev pub recharge_key : ℕ → Text
recharge_key id = b'r' ∷ b'e' ∷ b'c' ∷ b'h' ∷ b'a' ∷ b'r' ∷ b'g' ∷ b'e' ∷ b':' ∷ id ∷ []

-- The row of the payment; its counterparty is a constant text.
abbrev pub recharge_payment : ℕ → ℕ → RechargeRequest → Account → Account → FeeQuote → Payment
recharge_payment id operator_id q custody user_acc quote = record {
  id = id;
  idempotency_key = recharge_key q.id;
  user_id = q.user_id;
  type = PaymentType.recharge;
  asset = q.asset;
  amount = q.amount;
  status = PaymentStatus.completed;
  from_account_id = some custody.id;
  to_account_id = some user_acc.id;
  counterparty = 0;
  metadata = record no_metadata {
    recharge_id = some q.id;
    operator_id = some operator_id;
    gross_amount = some q.amount;
    fee = some quote.platform_fee;
  };
}

abbrev pub assigned_to : ℕ → Option ℕ → Bool
assigned_to operator_id none = false
assigned_to operator_id (some o) = o == operator_id

-- The transaction of `confirm`.
unfoldable pub confirm_transaction : Rates → ℕ → ℕ → Action RechargeRequest
confirm_transaction rates operator_id id = transaction do
  q ← get_request id
  throw_if (not (assigned_to operator_id q.operator_user_id)) forbidden
  throw_if
      (not
        (same_status q.status RechargeStatus.paid || same_status q.status RechargeStatus.claimed))
      wrong_status
  quote ← lift (quote_deposit rates q.amount)
  custody ← get_or_create_account system custody_owner q.asset
  user_acc ← get_or_create_account user q.user_id q.asset
  fees ← get_or_create_account system fee_account q.asset
  payment_id ← random_uuid
  insert_payment (recharge_payment payment_id operator_id q custody user_acc quote)
  post_journal payment_id
      (split_legs custody.id user_acc.id fees.id q.amount quote.net quote.platform_fee q.asset)
  save_request (record q { status = RechargeStatus.completed; fee_amount = quote.platform_fee })

-- confirm
unfoldable pub confirm : Environment → ℕ → ℕ → Option ℕ → Action RechargeRequest
confirm env operator_id id totp_code = do
  assert_step_up env operator_id totp_code
  confirm_transaction env.rates operator_id id
