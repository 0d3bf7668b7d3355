-- ===== src/Market/Trades.antt =====
-- The trades of marketplace/p2p-market.service.ts: payment, release, extension, dispute, and the worker that
-- lets windows expire.
use zentto_web.Prelude.{
  ℕ, suc, ◌+◌, Bool, true, false, not, ◌&&◌, ◌||◌, Option, none, some, List, [], ◌∷◌, ltb, leb,
  ◌==◌, if◌then◌else◌, filter, take,
}
use zentto_web.Errors.{forbidden, wrong_status, extensions_exhausted}
use zentto_web.Database.{user, system, fee_account, HoldStatus, TradeStatus, Resolution, Trade}
use zentto_web.Action.{Action, ◌>>=◌, ◌>>◌, gets, lift, throw_if, pure, transaction}
use zentto_web.Environment.{Environment}
use zentto_web.Auth.{assert_step_up}
use zentto_web.Fees.{Rates, FeeQuote, quote_p2p}
use zentto_web.Ledger.{get_or_create_account, post_journal}
use zentto_web.Ledger.Split.{split_legs}
use zentto_web.Market.{
  release_window_ms, extension_ms, max_extensions, same_status, in_progress, find_trade, get_trade,
  save_trade, set_if_held,
}

abbrev pub takes_part : ℕ → Trade → Bool
takes_part user_id t = t.buyer_user_id == user_id || t.seller_user_id == user_id

-- The release of confirmTrade and of resolveDispute: the hold is committed, the buyer receives the net
-- amount and the treasury the fee.
unfoldable pub release : Rates → Trade → Action FeeQuote
release rates t = do
  seller ← get_or_create_account user t.seller_user_id t.asset
  buyer ← get_or_create_account user t.buyer_user_id t.asset
  quote ← lift (quote_p2p rates t.amount)
  fees ← get_or_create_account system fee_account t.asset
  set_if_held t.hold_id HoldStatus.committed
  post_journal t.id
      (split_legs seller.id buyer.id fees.id t.amount quote.net quote.platform_fee t.asset)
  pure quote

-- The transaction of confirmTrade.
unfoldable pub confirm_transaction : Rates → ℕ → ℕ → Action (Unit {0})
confirm_transaction rates user_id trade_id = transaction do
  t ← get_trade trade_id
  throw_if (not (t.seller_user_id == user_id)) forbidden
  throw_if (not (in_progress t.status)) wrong_status
  quote ← release rates t
  save_trade (record t { fee_amount = quote.platform_fee; status = TradeStatus.completed })

-- confirmTrade
unfoldable pub confirm_trade : Environment → ℕ → ℕ → Option ℕ → Action (Unit {0})
confirm_trade env user_id trade_id totp_code = do
  assert_step_up env user_id totp_code
  confirm_transaction env.rates user_id trade_id

-- cancelTrade
unfoldable pub cancel_trade : ℕ → ℕ → Action (Unit {0})
cancel_trade user_id trade_id = transaction do
  t ← get_trade trade_id
  throw_if (not (takes_part user_id t)) forbidden
  throw_if (not (same_status t.status TradeStatus.pending)) wrong_status
  set_if_held t.hold_id HoldStatus.released
  save_trade (record t { status = TradeStatus.cancelled })

-- markPaid
unfoldable pub mark_paid : ℕ → ℕ → ℕ → Action (Unit {0})
mark_paid now user_id trade_id = do
  t ← get_trade trade_id
  throw_if (not (t.buyer_user_id == user_id)) forbidden
  throw_if (not (same_status t.status TradeStatus.pending)) wrong_status
  save_trade (record t {
    status = TradeStatus.paid;
    paid_at = some now;
    release_deadline = some (now + release_window_ms);
  })

-- `Math.max(base, now) + EXTENSION_MS`, where `base` is the deadline or now.
abbrev pub later : ℕ → Option ℕ → ℕ
later now none = now + extension_ms
later now (some base) = (if ltb base now then now else base) + extension_ms

-- The trade with the window that runs extended.
abbrev pub extended : ℕ → Trade → Trade
extended now t =
    if same_status t.status TradeStatus.pending
    then record t {
      payment_deadline = some (later now t.payment_deadline);
      extensions = suc t.extensions;
    }
    else record t {
      release_deadline = some (later now t.release_deadline);
      extensions = suc t.extensions;
    }

-- extendTrade
unfoldable pub extend_trade : ℕ → ℕ → ℕ → Action Trade
extend_trade now user_id trade_id = do
  t ← get_trade trade_id
  throw_if (not (takes_part user_id t)) forbidden
  throw_if (not (in_progress t.status)) wrong_status
  throw_if (leb max_extensions t.extensions) extensions_exhausted
  save_trade (extended now t)
  pure (extended now t)

-- openDispute; the reason is only shown.
unfoldable pub open_dispute : ℕ → ℕ → Action (Unit {0})
open_dispute user_id trade_id = do
  t ← get_trade trade_id
  throw_if (not (takes_part user_id t)) forbidden
  throw_if (not (in_progress t.status)) wrong_status
  save_trade (record t { status = TradeStatus.disputed; dispute_by = some user_id })

-- What resolveDispute does with the trade, by the decision of the arbiter.
unfoldable pub decide : Rates → Resolution → Trade → Action Trade
decide rates Resolution.released t = do
  quote ← release rates t
  pure (record t { fee_amount = quote.platform_fee; status = TradeStatus.completed })
decide rates Resolution.refunded t = do
  set_if_held t.hold_id HoldStatus.released
  pure (record t { status = TradeStatus.cancelled })

-- resolveDispute
unfoldable pub resolve_dispute : Rates → ℕ → ℕ → Resolution → Action (Unit {0})
resolve_dispute rates arbiter trade_id decision = transaction do
  t ← get_trade trade_id
  throw_if (not (same_status t.status TradeStatus.disputed)) wrong_status
  decided ← decide rates decision t
  save_trade (record decided { resolved_by = some arbiter; resolution = some decision })

-- `LessThan(now)` of a column that may be null.
abbrev pub is_before : Option ℕ → ℕ → Bool
is_before none now = false
is_before (some at) now = ltb at now

-- The change of a trade, if it still has the status that the query asked for.
abbrev pub dispute_if : TradeStatus → (Trade → ℕ) → Option Trade → Action (Unit {0})
dispute_if s by none = pure tt
dispute_if s by (some t) =
    if same_status t.status s
    then save_trade (record t { status = TradeStatus.disputed; dispute_by = some (by t) })
    else pure tt

abbrev pub expire_if_pending : Option Trade → Action (Unit {0})
expire_if_pending none = pure tt
expire_if_pending (some t) =
    if same_status t.status TradeStatus.pending
    then set_if_held t.hold_id HoldStatus.released
      >> save_trade (record t { status = TradeStatus.expired })
    else pure tt

-- One round of the first loop of sweepTimeouts; `has_messages` counts the chat of a trade.
unfoldable pub sweep_pending_one : (ℕ → Bool) → Trade → Action (Unit {0})
sweep_pending_one has_messages t = do
  fresh ← gets (λ db. find_trade t.id db.trades)
  if ltb 0 t.extensions || has_messages t.id
      then dispute_if TradeStatus.pending (λ u. u.seller_user_id) fresh
      else transaction (expire_if_pending fresh)

unfoldable pub sweep_pending : (ℕ → Bool) → List Trade → Action (Unit {0})
sweep_pending has_messages [] = pure tt
sweep_pending has_messages (t ∷ ts) =
    sweep_pending_one has_messages t >> sweep_pending has_messages ts

-- The second loop.
unfoldable pub sweep_paid : List Trade → Action (Unit {0})
sweep_paid [] = pure tt
sweep_paid (t ∷ ts) = do
  fresh ← gets (λ db. find_trade t.id db.trades)
  dispute_if TradeStatus.paid (λ u. u.buyer_user_id) fresh
  sweep_paid ts

-- sweepTimeouts; `sweeping` is the flag when it is called.
unfoldable pub sweep_timeouts : (ℕ → Bool) → ℕ → Bool → Action (Unit {0})
sweep_timeouts has_messages now true = pure tt
sweep_timeouts has_messages now false = do
  late ← gets (λ db. take 50 (
      filter
        (λ (t : Trade).
          same_status t.status TradeStatus.pending && is_before t.payment_deadline now)
        db.trades))
  sweep_pending has_messages late
  overdue ← gets (λ db. take 50 (
      filter
        (λ (t : Trade). same_status t.status TradeStatus.paid && is_before t.release_deadline now)
        db.trades))
  sweep_paid overdue
