-- ===== src/Withdrawals.antt =====
-- withdrawals/withdrawals.service.ts: withdrawals to a chain. A request holds the funds; a worker
-- broadcasts it, and later commits the hold with a journal or releases it.
pub mod Cooldown
pub mod Worker
pub mod Rows
pub mod Stuck
pub mod Settlement
pub mod Lifecycle
pub mod Guards
use zentto_web.Prelude.{
  ℕ, suc, ◌+◌, ◌-◌, ◌*◌, Bool, true, false, not, ◌&&◌, ◌||◌, Option, none, some, List, [], ◌∷◌,
  ◌++◌, map, ltb, leb, ◌==◌, if◌then◌else◌, find, filter, take,
}
use mathlib.Core.List.{reverse}
use zentto_web.Prelude.Int.{ℤ, pos, ltb_ℤ}
use zentto_web.Money.{Text, trim, is_empty}
use zentto_web.Money.Amount.{Amount, exact, is_positive}
use zentto_web.Errors.{
  Error, asset_not_supported, amount_not_positive, bad_address, bad_network, empty_label, not_found,
  forbidden, recent_password, totp_disabled, totp_missing, totp_invalid, insufficient_balance,
}
use zentto_web.Database.{
  Database, user, system, custody_owner, fee_account, Direction, HoldStatus, Payment, PaymentType,
  PaymentStatus, Metadata, no_metadata, Stage, User, WithdrawAddress, Hold, Account,
}
use zentto_web.Action.{
  Action, Outcome, returned, thrown, ◌>>=◌, ◌>>◌, gets, lift, or_throw, throw_if, pure, modify,
  random_uuid, transaction, try_catch,
}
use zentto_web.Environment.{at_time, Environment, Network}
use zentto_web.Auth.{get_by_id, verify_totp}
use zentto_web.Fees.{FeeQuote, quote_withdraw}
use zentto_web.Ledger.{
  JournalLeg, get_or_create_account, available_of, create_hold, set_hold_status, post_journal,
}
use zentto_web.Prelude.Texts.{text_eq}
use zentto_web.Payments.{find_payment, insert_payment, member, resolve_error}

-- const PASSWORD_CHANGE_COOLDOWN_MS
abbrev pub password_change_cooldown_ms : ℕ
password_change_cooldown_ms = 86400000

-- EvmService.cfgOf: the network of a key, or the primary one.
unfoldable pub cfg_of : Environment → Option ℕ → Action Network
cfg_of env (some k) = or_throw (find (λ (n : Network). n.key == k) env.networks) bad_network
cfg_of env none = or_throw (find (λ (n : Network). true) env.networks) bad_network

abbrev pub find_favorite : ℕ → ℕ → ℕ → List WithdrawAddress → Option WithdrawAddress
find_favorite user_id network address =
    find (λ (f : WithdrawAddress).
      f.user_id == user_id && f.network == network && f.address == address)

-- `save` of a row that is there.
pub update_favorites : WithdrawAddress → List WithdrawAddress → List WithdrawAddress
update_favorites f [] = []
update_favorites f (g ∷ gs) = (if g.id == f.id then f else g) ∷ update_favorites f gs

remove_row : ℕ → List WithdrawAddress → List WithdrawAddress
remove_row id = filter (λ (f : WithdrawAddress). not (f.id == id))

-- addFavorite; the asset is already upper case and cut to 16 characters.
pub add_favorite : Environment → ℕ → Text → Option ℕ → ℕ → ℕ → Action WithdrawAddress
add_favorite env user_id label_raw network_key address asset = do
  let label : Text = take 64 (trim label_raw)
  throw_if (is_empty label) empty_label
  throw_if (not (env.is_address address)) bad_address
  network ← cfg_of env network_key
  existing ← gets (λ db. find_favorite user_id network.key address db.favorites)
  elim existing [
    | some f ↦ if text_eq f.label label then pure f else do
      modify (λ db. record db {
        favorites = update_favorites (record f { label = label }) db.favorites;
      })
      pure (record f { label = label })
    | none ↦ do
      id ← random_uuid
      let f : WithdrawAddress = record {
        id = id;
        user_id = user_id;
        label = label;
        network = network.key;
        address = address;
        asset = env.upper asset;
      }
      modify (λ db. record db { favorites = f ∷ db.favorites })
      pure f
  ]

-- removeFavorite
pub remove_favorite : ℕ → ℕ → Action (Unit {0})
unfolding remove_row
remove_favorite user_id id = do
  found ← gets (λ db. find (λ (f : WithdrawAddress). f.id == id) db.favorites)
  f ← or_throw found not_found
  throw_if (not (f.user_id == user_id)) forbidden
  modify (λ db. record db { favorites = remove_row id db.favorites })

-- The password changed less than the cooldown before `now`.
pub changed_recently : ℕ → User → Bool
changed_recently now u = elim u.password_changed_at [
  | none ↦ false
  | some at ↦ ltb now (at + password_change_cooldown_ms)
]

-- assertStepUp of the withdrawals
unfoldable pub assert_withdrawal : Environment → ℕ → ℕ → Option ℕ → Action (Unit {0})
assert_withdrawal env now user_id totp_code = do
  u ← get_by_id user_id
  throw_if (not u.totp_enabled && changed_recently now u) recent_password
  throw_if (not u.totp_enabled) totp_disabled
  code ← or_throw totp_code totp_missing
  throw_if (not (verify_totp (at_time now env) u code)) totp_invalid

pub record WithdrawRequest : Type 0 where
  pub user_id : ℕ
  pub asset : ℕ
  pub amount : Amount
  pub to_address : ℕ
  pub idempotency_key : Text
  pub network : Option ℕ
  pub save_label : Option Text
  pub totp_code : Option ℕ

-- The row of a new withdrawal; the id of its hold is written in a second `save`.
abbrev pub new_withdrawal : ℕ → WithdrawRequest → ℕ → Account → FeeQuote → Payment
new_withdrawal id req network acc quote = record {
  id = id;
  idempotency_key = req.idempotency_key;
  user_id = req.user_id;
  type = PaymentType.withdrawal;
  asset = req.asset;
  amount = req.amount;
  status = PaymentStatus.processing;
  from_account_id = some acc.id;
  to_account_id = none;
  counterparty = req.to_address;
  metadata = record no_metadata {
    to_address = some req.to_address;
    network = some network;
    stage = some Stage.pending_broadcast;
    fee = some quote.platform_fee;
    network_fee = some quote.network_fee;
    total_fee = some quote.total_fee;
    total_debit = some quote.total;
  };
}

abbrev pub with_metadata : Payment → Metadata → Payment
with_metadata p meta = record p { metadata = meta }

abbrev pub with_stage : Payment → Stage → Payment
with_stage p s = record p { metadata = record (p.metadata) { stage = some s } }

-- `save` or `update` of a payment that is there.
pub update_payments : Payment → List Payment → List Payment
update_payments p [] = []
update_payments p (q ∷ qs) = (if q.id == p.id then p else q) ∷ update_payments p qs

abbrev pub save_payment : Payment → Action (Unit {0})
save_payment p = modify (λ db. record db { payments = update_payments p db.payments })

-- The transaction of `request`.
unfoldable pub request_transaction : Environment → WithdrawRequest → ℕ → Action Payment
request_transaction env req network = transaction do
  acc ← get_or_create_account user req.user_id req.asset
  available ← gets (available_of acc.id)
  quote ← lift (quote_withdraw env.rates req.amount)
  throw_if (ltb_ℤ available quote.total.base) insufficient_balance
  id ← random_uuid
  let payment : Payment = new_withdrawal id req network acc quote
  insert_payment payment
  hold ← create_hold acc.id req.asset quote.total (some id)
  let held : Payment = with_metadata payment (record (payment.metadata) { hold_id = some hold.id })
  save_payment held
  pure held

-- `if (req.saveLabel?.trim()) await this.addFavorite(…).catch(() => undefined)`
abbrev pub save_if_labelled : Environment → WithdrawRequest → ℕ → Action (Unit {0})
save_if_labelled env req network = elim req.save_label [
  | none ↦ pure tt
  | some label ↦
      if is_empty (trim label)
      then pure tt
      else try_catch
          (add_favorite env req.user_id label (some network) req.to_address req.asset >>= λ f.
            pure tt)
          (λ e. pure tt)
]

-- request; `others` is what other requests commit between the checks and the transaction.
unfoldable pub request : Environment → (Database → Database) → ℕ → WithdrawRequest → Action Payment
request env others now req = do
  throw_if (not (member (env.upper req.asset) env.withdrawable)) asset_not_supported
  throw_if (not (is_positive req.amount)) amount_not_positive
  throw_if (not (env.is_address req.to_address)) bad_address
  network ← cfg_of env req.network
  existing ← gets (λ db. find_payment req.user_id req.idempotency_key db.payments)
  elim existing [
    | some p ↦ pure p
    | none ↦ do
      assert_withdrawal env now req.user_id req.totp_code
      save_if_labelled env req network.key
      modify others
      try_catch (request_transaction env req network.key)
          (resolve_error req.user_id req.idempotency_key)
  ]
