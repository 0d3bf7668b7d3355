-- ===== src/Database/Trading.antt =====
-- database/entities/: offers, trades and recharge requests.
use zentto_web.Prelude.{ℕ, Option}
use zentto_web.Prelude.Int.{ℤ}
use zentto_web.Money.{Text}
use zentto_web.Money.Amount.{Amount}

pub data Side : Type 0 where
  buy sell : Side

pub data OrderStatus : Type 0 where
  open_order taken cancelled_order : OrderStatus

pub record Order : Type 0 where
  pub id : ℕ
  pub maker_user_id : ℕ
  pub side : Side
  pub asset : ℕ
  pub amount : Amount
  pub price_ves : Amount
  pub status : OrderStatus
  pub hold_id : Option ℕ

pub data TradeStatus : Type 0 where
  pending paid completed cancelled disputed expired : TradeStatus

pub data Resolution : Type 0 where
  released refunded : Resolution

pub record Trade : Type 0 where
  pub id : ℕ
  pub order_id : ℕ
  pub buyer_user_id : ℕ
  pub seller_user_id : ℕ
  pub asset : ℕ
  pub amount : Amount
  pub price_ves : Amount
  pub status : TradeStatus
  pub hold_id : Option ℕ
  pub paid_at : Option ℕ
  pub payment_deadline : Option ℕ
  pub release_deadline : Option ℕ
  pub extensions : ℕ
  pub dispute_by : Option ℕ
  pub resolved_by : Option ℕ
  pub resolution : Option Resolution
  pub fee_amount : Amount

pub data RechargeStatus : Type 0 where
  pending claimed paid completed cancelled expired : RechargeStatus

pub record RechargeRequest : Type 0 where
  pub id : ℕ
  pub user_id : ℕ
  pub operator_user_id : Option ℕ
  pub asset : ℕ
  pub amount : Amount
  pub rate_ves : Amount
  pub fiat_amount : ℤ
  pub status : RechargeStatus
  pub operator_payment_info : Option Text
  pub evidence : Option Text
  pub fee_amount : Amount
  pub claimed_at : Option ℕ
