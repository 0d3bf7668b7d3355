-- ===== src/Blockchain/Node.antt =====
-- blockchain/blockchain.service.ts: the genesis block, mining what is pending, and the check of the stored chain.
use zentto_web.Prelude.{
  ℕ, suc, Bool, true, false, not, ◌&&◌, Option, none, some, List, [], ◌∷◌, ◌++◌, map, ltb, ◌==◌,
  if◌then◌else◌, length, replicate,
}
use zentto_web.Prelude.Int.{ℤ, pos, ◌+ℤ◌}
use zentto_web.Prelude.Texts.{text_eq}
use zentto_web.Money.{Text}
use zentto_web.Errors.{invalid_input, Result, ok, err}
use zentto_web.Blockchain.{
  Crypto, Transaction, Block, new_block, with_hash, mine, has_valid_transactions, has_valid_proof,
}
use zentto_web.Blockchain.Chain.{
  mined, TransactionEntity, BlockEntity, block_mined, ChainConfig, Chain, save_block,
  save_transaction, save_transactions, order_by, get_latest_block, get_pending, rows_in, ChainError,
  hash_mismatch, invalid_proof, invalid_transactions, broken_link, ChainValidationResult,
  to_tx_entity, to_block_entity, block_to_snapshot, persist_block,
}

abbrev pub genesis_timestamp : ℕ
genesis_timestamp = 1700000000000

abbrev genesis_id : Text
genesis_id =
    b'g' ∷ b'e' ∷ b'n' ∷ b'e' ∷ b's' ∷ b'i' ∷ b's' ∷ b'-' ∷ b'p' ∷ b'r' ∷ b'e' ∷ b'm' ∷ b'i' ∷ b'n'
    ∷ b'e' ∷ []

abbrev pub genesis_transactions : Crypto → Option Text → List Transaction
genesis_transactions c none = []
genesis_transactions c (some address) =
    record {
      id = genesis_id;
      from_address = none;
      to_address = address;
      amount = c.whole 1000000;
      fee = pos 0;
      timestamp = genesis_timestamp;
      signature = none;
    }
    ∷ []

-- The reduce of minePending, from the first row on.
abbrev pub total_fees : Crypto → ℤ → List Transaction → ℤ
total_fees c acc [] = acc
total_fees c acc (t ∷ ts) = total_fees c (c.round (acc +ℤ t.fee)) ts

-- The domain transaction of a row.
abbrev pub row_transaction : TransactionEntity → Transaction
row_transaction r = r.transaction

abbrev pub marked : ℕ → TransactionEntity → TransactionEntity
marked n r = record r { status = mined; block_index = some n }

-- The stored columns of a block, with its transactions, as a domain block whose hash is computed again.
abbrev pub rebuilt : Crypto → BlockEntity → List Transaction → Block
rebuilt c stored ts =
    with_hash c
      (record (new_block c stored.index stored.timestamp ts stored.previous_hash
        stored.difficulty) { nonce = stored.nonce })

module _ (c : Crypto) (config : ChainConfig) where
  abbrev pub genesis_block : Block
  genesis_block =
      new_block c 0 genesis_timestamp (genesis_transactions c config.genesis_premine_address)
        (replicate 64 b'0') config.difficulty

  abbrev pub persist_genesis : Option Block → Chain → Option Chain
  persist_genesis none chain = none
  persist_genesis (some genesis) chain = some (persist_block c genesis none chain)

  -- createGenesisBlock; `none` where the fuel of the search for a nonce runs out.
  abbrev pub create_genesis_block : ℕ → Chain → Option Chain
  create_genesis_block fuel chain = persist_genesis (mine c fuel genesis_block) chain

  -- onModuleInit
  abbrev pub on_module_init : ℕ → Chain → Option Chain
  on_module_init fuel chain =
      if length chain.blocks == 0 then create_genesis_block fuel chain else some chain

  -- The coinbase of minePending.
  abbrev pub coinbase : Text → Text → ℕ → List Transaction → Transaction
  coinbase id miner_address now ts = record {
    id = id;
    from_address = none;
    to_address = miner_address;
    amount = c.round (config.mining_reward +ℤ total_fees c (pos 0) ts);
    fee = pos 0;
    timestamp = now;
    signature = none;
  }

  -- The database transaction of minePending, and its event.
  abbrev pub persist_mined : Text → Transaction → List TransactionEntity → Block → Chain → Chain
  persist_mined miner_address reward pending_rows b chain = record chain {
    blocks = save_block (to_block_entity b (some miner_address)) chain.blocks;
    txs =
        save_transactions (map (marked b.index) pending_rows)
          (save_transaction (to_tx_entity c reward mined (some b.index)) chain.txs);
    events = block_mined (block_to_snapshot b (some miner_address)) ∷ chain.events;
  }

  -- minePending: the block that is mined, or `none` where the fuel of the search runs out. The clock is read twice.
  abbrev pub mined_chain :
      Text → Transaction → List TransactionEntity → Option Block → Chain → Option (Result Chain)
  mined_chain miner_address reward pending_rows none chain = none
  mined_chain miner_address reward pending_rows (some b) chain =
      some (ok (persist_mined miner_address reward pending_rows b chain))

  abbrev pub candidate : Transaction → List Transaction → ℕ → BlockEntity → Block
  candidate reward pending_txs now tip =
      new_block c (suc tip.index) now (reward ∷ pending_txs) tip.hash config.difficulty

  abbrev pub mine_on : ℕ → Text → Text → ℕ → ℕ → Chain → BlockEntity → Option (Result Chain)
  mine_on fuel id miner_address now now' chain tip =
      let pending_rows = get_pending chain in
      let pending_txs = map row_transaction pending_rows in
      let reward = coinbase id miner_address now pending_txs in
      let b = candidate reward pending_txs now' tip in
      if not (has_valid_transactions c b)
      then some (err invalid_input)
      else mined_chain miner_address reward pending_rows (mine c fuel b) chain

  abbrev pub mine_after :
      ℕ → Text → Text → ℕ → ℕ → Chain → Result BlockEntity → Option (Result Chain)
  mine_after fuel id miner_address now now' chain (err e) = some (err e)
  mine_after fuel id miner_address now now' chain (ok tip) =
      mine_on fuel id miner_address now now' chain tip

  abbrev pub mine_pending : ℕ → Text → Text → ℕ → ℕ → Chain → Option (Result Chain)
  mine_pending fuel id miner_address now now' chain =
      mine_after fuel id miner_address now now' chain (get_latest_block chain)

abbrev pub report : Bool → ChainError → List ChainError
report problem e = if problem then e ∷ [] else []

abbrev pub is_empty_list : {A : Type 0} → List A → Bool
is_empty_list [] = true
is_empty_list (a ∷ l) = false

abbrev pub link_errors : Option BlockEntity → BlockEntity → List ChainError
link_errors none stored = []
link_errors (some p) stored =
    report (not (text_eq stored.previous_hash p.hash)) (broken_link stored.index)

module _ (c : Crypto) (rows : List TransactionEntity → List TransactionEntity) where
  -- One turn of the loop of validateChain, after the block before it.
  abbrev pub block_errors : Chain → Option BlockEntity → BlockEntity → List ChainError
  block_errors chain previous stored =
      let b = rebuilt c stored (map row_transaction (rows_in rows stored.index chain)) in
      report (not (text_eq b.hash stored.hash)) (hash_mismatch stored.index)
      ++ (report (ltb 0 stored.index && not (has_valid_proof c b)) (invalid_proof stored.index)
          ++ (report (not (has_valid_transactions c b)) (invalid_transactions stored.index)
              ++ link_errors previous stored))

  abbrev pub chain_errors : Chain → Option BlockEntity → List BlockEntity → List ChainError
  chain_errors chain previous [] = []
  chain_errors chain previous (stored ∷ bs) =
      block_errors chain previous stored ++ chain_errors chain (some stored) bs

  -- validateChain
  abbrev pub validate_chain : Chain → ChainValidationResult
  validate_chain chain =
      let bs = order_by (λ (b : BlockEntity). b.index) chain.blocks in
      let errors = chain_errors chain none bs in
      record { valid = is_empty_list errors; height = length bs; errors = errors }
