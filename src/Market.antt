-- ===== src/Market.antt =====
-- marketplace/p2p-market.service.ts: the P2P market. The crypto of the seller is kept back by a hold from the
-- offer, or from the moment it is taken, until the trade is released, refunded or expired.
pub mod Trades
pub mod Release
pub mod Offers
pub mod Refusals
pub mod Final
pub mod Trace
use zentto_web.Prelude.{
  ℕ, suc, ◌+◌, Bool, true, false, not, ◌&&◌, ◌||◌, Option, none, some, List, [], ◌∷◌, ltb, leb,
  ◌==◌, if◌then◌else◌, find, filter, take,
}
use mathlib.Core.List.{reverse}
use zentto_web.Prelude.Int.{pos, ltb_ℤ}
use zentto_web.Money.Amount.{Amount, exact, is_positive}
use zentto_web.Errors.{
  asset_not_supported, amount_not_positive, price_out_of_band, insufficient_balance, not_found,
  forbidden, wrong_status, own_order, extensions_exhausted,
}
use zentto_web.Database.{
  Database, user, system, fee_account, HoldStatus, Side, OrderStatus, Order, TradeStatus,
  Resolution, Trade,
}
use zentto_web.Action.{
  Action, ◌>>=◌, ◌>>◌, gets, lift, or_throw, throw_if, pure, modify, random_uuid, transaction,
}
use zentto_web.Environment.{Environment}
use zentto_web.Auth.{assert_step_up}
use zentto_web.Fees.{FeeQuote, quote_p2p}
use zentto_web.Ledger.{
  get_or_create_account, available_of, create_hold, set_hold_status, post_journal,
}
use zentto_web.Ledger.Split.{split_legs}
use zentto_web.Payments.{member}

abbrev pub payment_window_ms : ℕ
payment_window_ms = 900000

abbrev pub release_window_ms : ℕ
release_window_ms = 1800000

abbrev pub extension_ms : ℕ
extension_ms = 900000

abbrev pub max_extensions : ℕ
max_extensions = 2

abbrev pub same_status : TradeStatus → TradeStatus → Bool
same_status TradeStatus.pending TradeStatus.pending = true
same_status TradeStatus.paid TradeStatus.paid = true
same_status TradeStatus.completed TradeStatus.completed = true
same_status TradeStatus.cancelled TradeStatus.cancelled = true
same_status TradeStatus.disputed TradeStatus.disputed = true
same_status TradeStatus.expired TradeStatus.expired = true
same_status _ _ = false

-- A trade in progress: pending or paid.
abbrev pub in_progress : TradeStatus → Bool
in_progress s = same_status s TradeStatus.pending || same_status s TradeStatus.paid

abbrev pub is_open : OrderStatus → Bool
is_open OrderStatus.open_order = true
is_open _ = false

-- `findOne({ where: { id } })` of an order; its amount is the column's. The price is only shown, so that
-- its column rounds it is left out.
abbrev pub reread_order : Order → Order
reread_order o = record o { amount = exact o.amount.stored }

unfoldable pub get_order : ℕ → Action Order
get_order id = do
  found ← gets (λ db. find (λ (o : Order). o.id == id) db.orders)
  o ← or_throw found not_found
  pure (reread_order o)

-- `save` of an order that is there.
unfoldable pub update_orders : Order → List Order → List Order
update_orders o [] = []
update_orders o (p ∷ ps) = (if p.id == o.id then o else p) ∷ update_orders o ps

abbrev pub save_order : Order → Action (Unit {0})
save_order o = modify (λ db. record db { orders = update_orders o db.orders })

-- The same of trades; their amounts come from orders that were read, and are exact.
abbrev pub find_trade : ℕ → List Trade → Option Trade
find_trade id = find (λ (t : Trade). t.id == id)

unfoldable pub get_trade : ℕ → Action Trade
get_trade id = do found ← gets (λ db. find_trade id db.trades); or_throw found not_found

unfoldable pub update_trades : Trade → List Trade → List Trade
update_trades t [] = []
update_trades t (u ∷ us) = (if u.id == t.id then t else u) ∷ update_trades t us

abbrev pub save_trade : Trade → Action (Unit {0})
save_trade t = modify (λ db. record db { trades = update_trades t db.trades })

-- `if (holdId) await this.ledger.setHoldStatus(…)`
abbrev pub set_if_held : Option ℕ → HoldStatus → Action (Unit {0})
set_if_held none s = pure tt
set_if_held (some k) s = set_hold_status k s

-- The hold that an offer or a trade starts with, against what the seller has available.
unfoldable pub escrow : ℕ → ℕ → Amount → Action (Option ℕ)
escrow seller asset amount = do
  acc ← get_or_create_account user seller asset
  available ← gets (available_of acc.id)
  throw_if (ltb_ℤ available amount.base) insufficient_balance
  hold ← create_hold acc.id asset amount none
  pure (some hold.id)

-- createOrder; `in_band` is the comparison with the answer of getMarketRate, in floating point.
unfoldable pub create_order :
    Environment → (Amount → Bool) → ℕ → Side → ℕ → Amount → Amount → Action Order
create_order env in_band user_id side asset amount price_ves = do
  throw_if (not (member asset env.assets)) asset_not_supported
  throw_if (not (is_positive amount)) amount_not_positive
  throw_if (not (is_positive price_ves)) amount_not_positive
  throw_if (not (in_band price_ves)) price_out_of_band
  transaction do
    hold_id ← elim side [ Side.sell ↦ escrow user_id asset amount | Side.buy ↦ pure none ]
    id ← random_uuid
    let order : Order = record {
      id = id;
      maker_user_id = user_id;
      side = side;
      asset = asset;
      amount = amount;
      price_ves = price_ves;
      status = OrderStatus.open_order;
      hold_id = hold_id;
    }
    modify (λ db. record db { orders = order ∷ db.orders })
    pure order

-- cancelOrder
unfoldable pub cancel_order : ℕ → ℕ → Action (Unit {0})
cancel_order user_id order_id = transaction do
  order ← get_order order_id
  throw_if (not (order.maker_user_id == user_id)) forbidden
  throw_if (not (is_open order.status)) wrong_status
  set_if_held order.hold_id HoldStatus.released
  save_order (record order { status = OrderStatus.cancelled_order })

abbrev pub buyer_of : ℕ → Order → ℕ
buyer_of taker o = elim o.side [ Side.sell ↦ taker | Side.buy ↦ o.maker_user_id ]

abbrev pub seller_of : ℕ → Order → ℕ
seller_of taker o = elim o.side [ Side.sell ↦ o.maker_user_id | Side.buy ↦ taker ]

-- The row of a new trade.
abbrev pub new_trade : ℕ → ℕ → ℕ → Order → Option ℕ → Trade
new_trade id now taker o hold_id = record {
  id = id;
  order_id = o.id;
  buyer_user_id = buyer_of taker o;
  seller_user_id = seller_of taker o;
  asset = o.asset;
  amount = o.amount;
  price_ves = o.price_ves;
  status = TradeStatus.pending;
  hold_id = hold_id;
  paid_at = none;
  payment_deadline = some (now + payment_window_ms);
  release_deadline = none;
  extensions = 0;
  dispute_by = none;
  resolved_by = none;
  resolution = none;
  fee_amount = exact (pos 0);
}

-- takeOrder
unfoldable pub take_order : ℕ → ℕ → ℕ → Action Trade
take_order now taker order_id = transaction do
  order ← get_order order_id
  throw_if (not (is_open order.status)) wrong_status
  throw_if (order.maker_user_id == taker) own_order
  hold_id ← elim order.side [
    | Side.sell ↦ pure order.hold_id
    | Side.buy ↦ escrow taker order.asset order.amount
  ]
  save_order (record order { status = OrderStatus.taken })
  id ← random_uuid
  let trade : Trade = new_trade id now taker order hold_id
  modify (λ db. record db { trades = trade ∷ db.trades })
  pure trade
