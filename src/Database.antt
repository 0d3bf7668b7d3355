-- ===== src/Database.antt =====
-- database/entities/: the tables that the money services read and write, and the database as one
-- record. Every table lists its newest row first.
--
-- Texts that the code only stores or compares (users, assets, addresses, networks, e-mails, hashes)
-- are numbers. A randomUUID is the number of ids drawn before it, so two draws never agree.
pub mod Accounts
pub mod Chains
pub mod Identity
pub mod Trading
use zentto_web.Prelude.{Bool, ℕ, Option, none, List, []}
use zentto_web.Prelude.Int.{ℤ}
use zentto_web.Money.{Text}
use zentto_web.Money.Amount.{Amount}
use zentto_web.Database.Identity.{KycVerification}
pub use zentto_web.Database.Accounts.{
  UserRole, User, AccountTokenType, AccountToken, verify_email, reset_password,
}
pub use zentto_web.Database.Chains.{WithdrawAddress, ChainDeposit, Cursor, DepositAddress}
pub use zentto_web.Database.Trading.{
  Side, OrderStatus, Order, TradeStatus, Resolution, Trade, RechargeStatus, RechargeRequest, buy,
  sell,
}

pub data OwnerType : Type 0 where
  user system : OwnerType

-- The owners of system accounts: 'custody', 'fees' and 'issuer'.
abbrev pub custody_owner : ℕ
custody_owner = 0

abbrev pub fee_account : ℕ
fee_account = 1

abbrev pub issuer_owner : ℕ
issuer_owner = 2

pub record Account : Type 0 where
  pub id : ℕ
  pub owner_type : OwnerType
  pub owner_id : ℕ
  pub asset : ℕ

pub data Direction : Type 0 where
  debit credit : Direction

-- An immutable entry of a journal; its amount is what the numeric column holds.
pub record Entry : Type 0 where
  pub id : ℕ
  pub payment_id : ℕ
  pub account_id : ℕ
  pub direction : Direction
  pub amount : ℤ
  pub asset : ℕ

pub data HoldStatus : Type 0 where
  active released committed : HoldStatus

pub record Hold : Type 0 where
  pub id : ℕ
  pub account_id : ℕ
  pub payment_id : Option ℕ
  pub asset : ℕ
  pub amount : ℤ
  pub status : HoldStatus

pub data PaymentType : Type 0 where
  faucet_credit transfer receive withdrawal deposit recharge : PaymentType

pub data PaymentStatus : Type 0 where
  created authorized processing completed failed expired reversed : PaymentStatus

-- `metadata.stage` of a withdrawal.
pub data Stage : Type 0 where
  pending_broadcast broadcasting broadcast completed failed : Stage

-- The JSON column `metadata`; amounts in it stay texts.
pub record Metadata : Type 0 where
  pub to_address : Option ℕ
  pub network : Option ℕ
  pub stage : Option Stage
  pub tx_hash : Option ℕ
  pub fee : Option Amount
  pub network_fee : Option Amount
  pub total_fee : Option Amount
  pub total_debit : Option Amount
  pub hold_id : Option ℕ
  pub gross_amount : Option Amount
  pub mirror_of : Option ℕ
  pub recharge_id : Option ℕ
  pub operator_id : Option ℕ
  pub log_index : Option ℕ

abbrev pub no_metadata : Metadata
no_metadata = record {
  to_address = none;
  network = none;
  stage = none;
  tx_hash = none;
  fee = none;
  network_fee = none;
  total_fee = none;
  total_debit = none;
  hold_id = none;
  gross_amount = none;
  mirror_of = none;
  recharge_id = none;
  operator_id = none;
  log_index = none;
}

-- The amount is the text of the request until the row is read again, and then exact.
pub record Payment : Type 0 where
  pub id : ℕ
  pub idempotency_key : Text
  pub user_id : ℕ
  pub type : PaymentType
  pub asset : ℕ
  pub amount : Amount
  pub status : PaymentStatus
  pub from_account_id : Option ℕ
  pub to_account_id : Option ℕ
  pub counterparty : ℕ
  pub metadata : Metadata

pub record Database : Type 0 where
  pub next_id : ℕ
  pub accounts : List Account
  pub entries : List Entry
  pub holds : List Hold
  pub payments : List Payment
  pub users : List User
  pub account_tokens : List AccountToken
  pub kyc_verifications : List KycVerification
  pub orders : List Order
  pub trades : List Trade
  pub requests : List RechargeRequest
  pub favorites : List WithdrawAddress
  pub chain_deposits : List ChainDeposit
  pub cursors : List Cursor
  pub deposit_addresses : List DepositAddress

abbrev pub empty_database : Database
empty_database = record {
  next_id = 0;
  accounts = [];
  entries = [];
  holds = [];
  payments = [];
  users = [];
  account_tokens = [];
  kyc_verifications = [];
  orders = [];
  trades = [];
  requests = [];
  favorites = [];
  chain_deposits = [];
  cursors = [];
  deposit_addresses = [];
}
