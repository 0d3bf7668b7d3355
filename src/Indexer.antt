-- ===== src/Indexer.antt =====
-- indexer/deposit-indexer.service.ts: deposits on the chains are found and credited to the ledger.
pub mod Failures
pub mod Credit
pub mod Once
pub mod Windows
pub mod Scan
pub mod Complete
pub mod Advance
use zentto_web.Prelude.{
  ℕ, suc, ◌+◌, ◌-◌, ◌*◌, Bool, true, false, not, ◌&&◌, ◌||◌, Option, none, some, List, [], ◌∷◌,
  ◌++◌, map, ltb, leb, ◌==◌, if◌then◌else◌, find, filter, length, is_some,
}
use zentto_web.Money.{Text, digits}
use zentto_web.Money.Amount.{Amount, is_positive}
use zentto_web.Errors.{Error, unique_violation, Result, ok, err}
use zentto_web.Database.{
  Database, user, system, custody_owner, fee_account, Account, Payment, PaymentType, PaymentStatus,
  no_metadata, ChainDeposit, Cursor, DepositAddress,
}
use zentto_web.Action.{
  Action, ◌>>=◌, ◌>>◌, gets, lift, throw, throw_if, pure, modify, random_uuid, transaction,
  try_catch,
}
use zentto_web.Fees.{Rates, FeeQuote, quote_deposit}
use zentto_web.Ledger.{get_or_create_account, post_journal}
use zentto_web.Ledger.Split.{split_legs}
use zentto_web.Payments.{insert_payment}

-- A transfer that a chain reports.
pub record Transfer : Type 0 where
  pub tx_hash : ℕ
  pub log_index : ℕ
  pub to : ℕ
  pub value : ℕ
  pub block_number : ℕ

pub record Token : Type 0 where
  pub address : ℕ
  pub asset : ℕ

-- NetworkConfig of an EVM network, as far as the scan reads it.
pub record EvmNetwork : Type 0 where
  pub key : ℕ
  pub confirmations : ℕ
  pub tokens : List Token
  pub usdc_address : ℕ
  pub asset : ℕ

pub record SolanaTransfer : Type 0 where
  pub tx_id : ℕ
  pub value : ℕ
  pub decimals : ℕ
  pub asset : ℕ

-- What the scan takes from viem, the RPC nodes, TronGrid and Solana's nodes. A call may fail.
pub record Clients : Type 0 where
  pub format_units : ℕ → ℕ → Amount
  pub lower : ℕ → ℕ
  pub current_block : ℕ → Result ℕ
  pub transfers_to : ℕ → List ℕ → ℕ → ℕ → ℕ → Result (List Transfer)  -- token, addresses, from, to, network
  pub token_decimals : ℕ → ℕ → Result ℕ
  pub tron_enabled : Bool
  pub tron_token : ℕ
  pub tron_transfers : ℕ → ℕ → Result (List Transfer)
  pub solana_enabled : Bool
  pub solana_transfers : ℕ → Result (List SolanaTransfer)
  pub now : ℕ

-- The keys of the chains and the assets, as the numbers of their texts.
pub record Names : Type 0 where
  pub evm : ℕ
  pub tron : ℕ
  pub solana : ℕ
  pub usdc : ℕ
  pub usdt : ℕ
  pub empty : ℕ

-- `findOne({ where: { network, txHash, logIndex } })`
abbrev pub is_deposit : ℕ → ℕ → ℕ → ChainDeposit → Bool
is_deposit network tx_hash log_index d =
    d.network == network && d.tx_hash == tx_hash && d.log_index == log_index

unfoldable pub find_deposit : ℕ → ℕ → ℕ → List ChainDeposit → Option ChainDeposit
find_deposit network tx_hash log_index = find (is_deposit network tx_hash log_index)

-- `deposit:${network}:${txHash}:${logIndex}`, with the network and the hash as one letter each.
abbrev pub deposit_key : ℕ → Transfer → Text
deposit_key network t =
    b'd'
    ∷ b'e'
    ∷ b'p'
    ∷ b'o'
    ∷ b's'
    ∷ b'i'
    ∷ b't'
    ∷ b':'
    ∷ network
    ∷ b':'
    ∷ t.tx_hash
    ∷ b':'
    ∷ digits t.log_index

abbrev pub deposit_payment :
    ℕ → ℕ → ℕ → Transfer → Amount → ℕ → Account → Account → FeeQuote → Payment
deposit_payment id network user_id t amount asset custody user_acc quote = record {
  id = id;
  idempotency_key = deposit_key network t;
  user_id = user_id;
  type = PaymentType.deposit;
  asset = asset;
  amount = quote.net;
  status = PaymentStatus.completed;
  from_account_id = some custody.id;
  to_account_id = some user_acc.id;
  counterparty = t.tx_hash;
  metadata = record no_metadata {
    network = some network;
    tx_hash = some t.tx_hash;
    log_index = some t.log_index;
    gross_amount = some amount;
    fee = some quote.platform_fee;
  };
}

-- `save` of a new row of chain_deposits, with its unique index.
unfoldable pub insert_deposit : ChainDeposit → Action (Unit {0})
insert_deposit d = do
  known ← gets (λ db. find_deposit d.network d.tx_hash d.log_index db.chain_deposits)
  throw_if (is_some known) unique_violation
  modify (λ db. record db { chain_deposits = d ∷ db.chain_deposits })

-- The writes of creditDeposit, for the three accounts and the quote.
unfoldable pub record_credit :
    ℕ → ℕ → ℕ → Transfer → Amount → ℕ → Account → Account → Account → FeeQuote → Action Bool
record_credit network token_address user_id t amount asset custody user_acc fees quote = do
  payment_id ← random_uuid
  insert_payment (deposit_payment payment_id network user_id t amount asset custody user_acc quote)
  post_journal payment_id
      (split_legs custody.id user_acc.id fees.id amount quote.net quote.platform_fee asset)
  deposit_id ← random_uuid
  insert_deposit (record {
    id = deposit_id;
    network = network;
    tx_hash = t.tx_hash;
    log_index = t.log_index;
    token_address = token_address;
    asset = asset;
    user_id = user_id;
    amount = amount;
    block_number = t.block_number;
    payment_id = some payment_id;
  })
  pure true

-- The database transaction of creditDeposit.
unfoldable pub credit_transaction : Rates → ℕ → ℕ → ℕ → Transfer → Amount → ℕ → Action Bool
credit_transaction rates network token_address user_id t amount asset = transaction do
  custody ← get_or_create_account system custody_owner asset
  user_acc ← get_or_create_account user user_id asset
  fees ← get_or_create_account system fee_account asset
  quote ← lift (quote_deposit rates amount)
  record_credit network token_address user_id t amount asset custody user_acc fees quote

-- `code === '23505'`
abbrev pub is_unique_violation : Error → Bool
is_unique_violation unique_violation = true
is_unique_violation _ = false

abbrev pub on_duplicate : Error → Action Bool
on_duplicate e = if is_unique_violation e then pure false else throw e

-- creditDeposit; `others` is what other scans and webhooks commit between the query and the transaction.
unfoldable pub credit_deposit :
    (Database → Database) → Rates → ℕ → ℕ → ℕ → Transfer → Amount → ℕ → Action Bool
credit_deposit others rates network token_address user_id t amount asset = do
  exists ← gets (λ db. find_deposit network t.tx_hash t.log_index db.chain_deposits)
  elim exists [
    | some d ↦ pure false
    | none ↦
        modify others
        >> try_catch (credit_transaction rates network token_address user_id t amount asset)
            on_duplicate
  ]

-- `byAddress.get(to)`: of two rows with the same address the later one counts.
abbrev pub later_user : Option ℕ → Bool → ℕ → Option ℕ
later_user (some u) same user_id = some u
later_user none same user_id = if same then some user_id else none

abbrev pub user_of : (ℕ → ℕ) → ℕ → List DepositAddress → Option ℕ
user_of lower to [] = none
user_of lower to (a ∷ addresses) =
    later_user (user_of lower to addresses) (lower a.address == to) a.user_id

abbrev pub count : Bool → ℕ → ℕ
count credited n = if credited then suc n else n

abbrev pub alone : Database → Database
alone db = db

module _ (clients : Clients) (rates : Rates) where
  -- One turn of the loop over the transfers of a token; `rest` is the turns after it.
  abbrev pub credit_for : ℕ → Token → ℕ → Transfer → Option ℕ → Action ℕ → Action ℕ
  credit_for network token decimals t none rest = rest
  credit_for network token decimals t (some user_id) rest = do
    credited ←
        credit_deposit alone rates network token.address user_id t
          (clients.format_units t.value decimals) token.asset
    n ← rest
    pure (count credited n)

  -- The loop of scanNetwork over the transfers of one token, and the number that it credits.
  unfoldable pub credit_transfers : ℕ → Token → ℕ → List DepositAddress → List Transfer → Action ℕ
  credit_transfers network token decimals addresses [] = pure 0
  credit_transfers network token decimals addresses (t ∷ ts) =
      credit_for network token decimals t (user_of clients.lower t.to addresses)
        (credit_transfers network token decimals addresses ts)

  abbrev pub decimals_of : ℕ → ℕ → List Transfer → Result ℕ
  decimals_of network token [] = ok 6
  decimals_of network token (t ∷ ts) = clients.token_decimals token network

  -- One turn of the loop over the tokens, from what the node answers; `rest` is the turns after it.
  abbrev pub credit_found :
      ℕ → List DepositAddress → Token → List Transfer → Result ℕ → Action (ℕ × ℕ) → Action (ℕ × ℕ)
  credit_found network addresses token ts (err e) rest = throw e
  credit_found network addresses token ts (ok decimals) rest = do
    credited ← credit_transfers network token decimals addresses ts
    more ← rest
    pure (length ts + more.0, credited + more.1)

  abbrev pub credit_token :
      ℕ → List DepositAddress → Token → Result (List Transfer) → Action (ℕ × ℕ) → Action (ℕ × ℕ)
  credit_token network addresses token (err e) rest = throw e
  credit_token network addresses token (ok ts) rest =
      credit_found network addresses token ts (decimals_of network token.address ts) rest

  -- The loop over the tokens of a network: how many transfers were found, and how many credited.
  unfoldable pub credit_tokens : ℕ → List DepositAddress → ℕ → ℕ → List Token → Action (ℕ × ℕ)
  credit_tokens network addresses from to [] = pure (0, 0)
  credit_tokens network addresses from to (token ∷ tokens) =
      credit_token network addresses token
        (clients.transfers_to token.address (map (λ (a : DepositAddress). a.address) addresses) from
          to network)
        (credit_tokens network addresses from to tokens)
