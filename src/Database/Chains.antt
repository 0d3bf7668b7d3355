-- ===== src/Database/Chains.antt =====
-- database/entities/: what belongs to the chains.
use zentto_web.Prelude.{ℕ, Option}
use zentto_web.Money.{Text}
use zentto_web.Money.Amount.{Amount}

-- Unique by (user, network, address).
pub record WithdrawAddress : Type 0 where
  pub id : ℕ
  pub user_id : ℕ
  pub label : Text
  pub network : ℕ
  pub address : ℕ
  pub asset : ℕ

-- Unique by (network, transaction, log index).
pub record ChainDeposit : Type 0 where
  pub id : ℕ
  pub network : ℕ
  pub tx_hash : ℕ
  pub log_index : ℕ
  pub token_address : ℕ
  pub asset : ℕ
  pub user_id : ℕ
  pub amount : Amount
  pub block_number : ℕ
  pub payment_id : Option ℕ

pub record Cursor : Type 0 where
  pub network : ℕ
  pub last_block : ℕ

-- Unique by (user, network) and by (network, derivation index).
pub record DepositAddress : Type 0 where
  pub id : ℕ
  pub user_id : ℕ
  pub network : ℕ
  pub address : ℕ
  pub derivation_index : ℕ
