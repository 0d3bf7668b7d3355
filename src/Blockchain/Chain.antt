-- ===== src/Blockchain/Chain.antt =====
-- blockchain/blockchain.service.ts: the stored chain and its mempool, balances, submission, mining, validation.
-- A row of `transactions` is a Transaction with its hash, its status and its block.
use zentto_web.Prelude.{
  ℕ, Bool, true, false, not, ◌&&◌, ◌||◌, Option, none, some, List, [], ◌∷◌, ◌++◌, map, ltb, ◌==◌,
  if◌then◌else◌, length, filter, find,
}
use zentto_web.Prelude.Int.{ℤ, pos, ◌+ℤ◌, ◌-ℤ◌, ltb_ℤ}
use zentto_web.Prelude.Texts.{text_eq}
use zentto_web.Money.{Text}
use zentto_web.Errors.{invalid_input, not_found, insufficient_balance, Result, ok, err}
use zentto_web.Blockchain.{Crypto, Transaction, transaction_hash, is_valid, Block}

pub data TransactionStatus : Type 0 where
  pending mined : TransactionStatus

pub record TransactionEntity : Type 0 where
  pub transaction : Transaction
  pub hash : Text
  pub status : TransactionStatus
  pub block_index : Option ℕ

pub record BlockEntity : Type 0 where
  pub index : ℕ
  pub timestamp : ℕ
  pub previous_hash : Text
  pub hash : Text
  pub merkle_root : Text
  pub nonce : ℕ
  pub difficulty : ℕ
  pub miner_address : Option Text

-- A block as it travels between nodes. A TransactionSnapshot has the fields of a Transaction and is one here.
pub record BlockSnapshot : Type 0 where
  pub index : ℕ
  pub timestamp : ℕ
  pub previous_hash : Text
  pub hash : Text
  pub merkle_root : Text
  pub nonce : ℕ
  pub difficulty : ℕ
  pub miner_address : Option Text
  pub transactions : List Transaction

pub data ChainEvent : Type 0 where
  block_mined : BlockSnapshot → ChainEvent
  tx_added : Transaction → ChainEvent

pub record ChainConfig : Type 0 where
  pub difficulty : ℕ
  pub mining_reward : ℤ
  pub genesis_premine_address : Option Text

-- The two tables, and the events that were emitted, the last one first.
pub record Chain : Type 0 where
  pub blocks : List BlockEntity
  pub txs : List TransactionEntity
  pub events : List ChainEvent

-- `save`: the row with the same primary key is replaced. PostgreSQL writes the new version of a row after the
-- others.
abbrev pub save_transaction : TransactionEntity → List TransactionEntity → List TransactionEntity
save_transaction r rows =
    filter (λ (o : TransactionEntity). not (text_eq o.transaction.id r.transaction.id)) rows
    ++ r ∷ []

abbrev pub save_block : BlockEntity → List BlockEntity → List BlockEntity
save_block b rows = filter (λ (o : BlockEntity). not (o.index == b.index)) rows ++ b ∷ []

abbrev pub save_transactions :
    List TransactionEntity → List TransactionEntity → List TransactionEntity
save_transactions [] rows = rows
save_transactions (r ∷ rs) rows = save_transactions rs (save_transaction r rows)

-- `ORDER BY key ASC`
module _ {A : Type 0} (key : A → ℕ) where
  unfoldable pub insert : A → List A → List A
  insert a [] = a ∷ []
  insert a (b ∷ bs) = let rest = insert a bs in if ltb (key b) (key a) then b ∷ rest else a ∷ b ∷ bs

  unfoldable pub order_by : List A → List A
  order_by [] = []
  order_by (a ∷ rest) = insert a (order_by rest)

-- `findOne({ order: { index: 'DESC' } })`
abbrev pub higher : BlockEntity → Option BlockEntity → BlockEntity
higher b none = b
higher b (some l) = if ltb b.index l.index then l else b

abbrev pub latest : List BlockEntity → Option BlockEntity
latest [] = none
latest (b ∷ bs) = some (higher b (latest bs))

abbrev pub or_not_found : {A : Type 0} → Option A → Result A
or_not_found none = err not_found
or_not_found (some a) = ok a

-- getHeight
abbrev pub get_height : Chain → ℕ
get_height chain = length chain.blocks

-- getLatestBlock
abbrev pub get_latest_block : Chain → Result BlockEntity
get_latest_block chain = or_not_found (latest chain.blocks)

abbrev pub is_pending : TransactionEntity → Bool
is_pending r = elim r.status [ pending ↦ true | mined ↦ false ]

abbrev pub is_in_block : ℕ → TransactionEntity → Bool
is_in_block n r = elim r.block_index [ none ↦ false | some i ↦ i == n ]

-- getPending
abbrev pub get_pending : Chain → List TransactionEntity
get_pending chain =
    order_by (λ (r : TransactionEntity). r.transaction.timestamp) (filter is_pending chain.txs)

-- getTransaction
abbrev pub get_transaction : Chain → Text → Result TransactionEntity
get_transaction chain id =
    or_not_found (find (λ (r : TransactionEntity). text_eq r.transaction.id id) chain.txs)

abbrev pub is_from : Text → Transaction → Bool
is_from address t = elim t.from_address [ none ↦ false | some a ↦ text_eq a address ]

-- computeBalance: its query, then its loop. The query has no ORDER BY: `rows` gives the order in which the
-- database returns the rows, on which the rounded sums depend.
abbrev pub counted : Bool → Text → TransactionEntity → Bool
counted include_pending address r =
    (not (is_pending r) || include_pending)
    && (is_from address r.transaction || text_eq r.transaction.to_address address)

module _ (c : Crypto) where
  -- The balance after what a row adds, and after what it takes.
  abbrev pub received_by : Text → TransactionEntity → ℤ → ℤ
  received_by address r balance =
      if text_eq r.transaction.to_address address && not (is_pending r)
      then c.round (balance +ℤ r.transaction.amount)
      else balance

  abbrev pub spent : Text → TransactionEntity → ℤ → ℤ
  spent address r balance =
      if is_from address r.transaction
      then c.round (balance -ℤ c.round (r.transaction.amount +ℤ r.transaction.fee))
      else balance

  abbrev pub sum_rows : Text → ℤ → List TransactionEntity → ℤ
  sum_rows address balance [] = balance
  sum_rows address balance (r ∷ rs) =
      sum_rows address (spent address r (received_by address r balance)) rs

  module _ (rows : List TransactionEntity → List TransactionEntity) where
    abbrev pub compute_balance : Chain → Text → Bool → ℤ
    compute_balance chain address include_pending =
        sum_rows address (pos 0) (rows (filter (counted include_pending address) chain.txs))

    -- getBalance
    abbrev pub get_balance : Chain → Text → ℤ
    get_balance chain address = compute_balance chain address false

    -- getAvailableBalance
    abbrev pub get_available_balance : Chain → Text → ℤ
    get_available_balance chain address = compute_balance chain address true

pub record SubmitTransactionInput : Type 0 where
  pub from_address : Text
  pub to_address : Text
  pub amount : ℤ
  pub fee : Option ℤ
  pub timestamp : ℕ
  pub signature : Text

-- The rows of one block, which are read without an order: `rows` gives the order the database returns.
abbrev pub rows_in :
    (List TransactionEntity → List TransactionEntity) → ℕ → Chain → List TransactionEntity
rows_in rows n chain = rows (filter (is_in_block n) chain.txs)

pub data ChainError : Type 0 where
  hash_mismatch invalid_proof invalid_transactions broken_link : ℕ → ChainError

pub record ChainValidationResult : Type 0 where
  pub valid : Bool
  pub height : ℕ
  pub errors : List ChainError

-- The new Transaction of submitTransaction, which gets a random id.
abbrev pub input_transaction : Text → SubmitTransactionInput → Transaction
input_transaction id input = record {
  id = id;
  from_address = some input.from_address;
  to_address = input.to_address;
  amount = input.amount;
  fee = elim input.fee [ none ↦ pos 0 | some fee ↦ fee ];
  timestamp = input.timestamp;
  signature = some input.signature;
}

-- toBlockEntity
abbrev pub to_block_entity : Block → Option Text → BlockEntity
to_block_entity b miner_address = record {
  index = b.index;
  timestamp = b.timestamp;
  previous_hash = b.previous_hash;
  hash = b.hash;
  merkle_root = b.merkle;
  nonce = b.nonce;
  difficulty = b.difficulty;
  miner_address = miner_address;
}

-- blockToSnapshot
abbrev pub block_to_snapshot : Block → Option Text → BlockSnapshot
block_to_snapshot b miner_address = record {
  index = b.index;
  timestamp = b.timestamp;
  previous_hash = b.previous_hash;
  hash = b.hash;
  merkle_root = b.merkle;
  nonce = b.nonce;
  difficulty = b.difficulty;
  miner_address = miner_address;
  transactions = b.transactions;
}

module _ (c : Crypto) where
  -- toTxEntity
  abbrev pub to_tx_entity : Transaction → TransactionStatus → Option ℕ → TransactionEntity
  to_tx_entity t status block_index = record {
    transaction = t;
    hash = transaction_hash c t;
    status = status;
    block_index = block_index;
  }

  -- submitTransaction; an error leaves the chain as it was.
  abbrev pub submit_transaction :
      (List TransactionEntity → List TransactionEntity)
      → Text
      → SubmitTransactionInput
      → Chain
      → Result Chain
  submit_transaction rows id input chain =
      let t = input_transaction id input in
      if not (is_valid c t)
      then err invalid_input
      else if ltb_ℤ (get_available_balance c rows chain input.from_address)
          (c.round (t.amount +ℤ t.fee))
      then err insufficient_balance
      else ok (record chain {
        txs = save_transaction (to_tx_entity t pending none) chain.txs;
        events = tx_added t ∷ chain.events;
      })

  -- persistBlock, and the same loop of appendExternalBlock and replaceChain.
  abbrev pub persist_block : Block → Option Text → Chain → Chain
  persist_block b miner_address chain = record chain {
    blocks = save_block (to_block_entity b miner_address) chain.blocks;
    txs =
        save_transactions
          (map (λ (t : Transaction). to_tx_entity t mined (some b.index)) b.transactions) chain.txs;
  }
