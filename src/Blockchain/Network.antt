-- ===== src/Blockchain/Network.antt =====
-- blockchain/blockchain.service.ts: what a node takes from and gives to the network.
use zentto_web.Prelude.{
  suc, Bool, true, false, not, ◌&&◌, ◌||◌, Option, none, some, List, [], ◌∷◌, map, leb, ◌==◌,
  if◌then◌else◌, length, filter, find,
}
use zentto_web.Prelude.Texts.{text_eq}
use zentto_web.Money.{Text}
use zentto_web.Errors.{Result, ok, err}
use zentto_web.Blockchain.{
  Crypto, Transaction, is_valid, Block, new_block, with_hash, has_valid_transactions,
  has_valid_proof,
}
use zentto_web.Blockchain.Chain.{
  pending, TransactionEntity, BlockEntity, BlockSnapshot, Chain, save_transaction,
  save_transactions, order_by, get_height, get_latest_block, get_pending, rows_in, to_tx_entity,
  persist_block,
}

pub data AppendStatus : Type 0 where
  accepted ignored mismatch rejected : AppendStatus

pub data ReplaceStatus : Type 0 where
  replaced unchanged refused : ReplaceStatus

-- `rows` gives the order in which the database returns the transactions of a block.
module _ (rows : List TransactionEntity → List TransactionEntity) where
  abbrev pub block_snapshot : Chain → BlockEntity → BlockSnapshot
  block_snapshot chain b = record {
    index = b.index;
    timestamp = b.timestamp;
    previous_hash = b.previous_hash;
    hash = b.hash;
    merkle_root = b.merkle_root;
    nonce = b.nonce;
    difficulty = b.difficulty;
    miner_address = b.miner_address;
    transactions = map (λ (r : TransactionEntity). r.transaction) (rows_in rows b.index chain);
  }

  -- getChainSnapshot, over getAllBlocks
  abbrev pub get_chain_snapshot : Chain → List BlockSnapshot
  get_chain_snapshot chain =
      map (block_snapshot chain) (order_by (λ (b : BlockEntity). b.index) chain.blocks)

abbrev pub has_id : Text → List Transaction → Bool
has_id id [] = false
has_id id (t ∷ ts) = text_eq t.id id || has_id id ts

-- `incomingTxIds.has(id)`
abbrev pub is_incoming : List BlockSnapshot → Text → Bool
is_incoming [] id = false
is_incoming (s ∷ snaps) id = has_id id s.transactions || is_incoming snaps id

abbrev pub kept : TransactionEntity → TransactionEntity
kept r = record r { status = pending; block_index = none }

-- The pending transactions that the incoming chain does not contain.
abbrev pub keep_pending : List BlockSnapshot → Chain → List TransactionEntity
keep_pending snaps chain =
    filter (λ (r : TransactionEntity). not (is_incoming snaps r.transaction.id)) (get_pending chain)

module _ (c : Crypto) where
  -- rebuildBlock
  abbrev pub rebuild_block : BlockSnapshot → Block
  rebuild_block s =
      with_hash c
        (record (new_block c s.index s.timestamp s.transactions s.previous_hash s.difficulty) {
          nonce = s.nonce;
        })

  -- The test of one block that appendExternalBlock and validateChainSnapshots share.
  abbrev pub is_sound : BlockSnapshot → Bool
  is_sound s =
      let b = rebuild_block s in
      text_eq b.hash s.hash
      && (text_eq b.merkle s.merkle_root && (has_valid_proof c b && has_valid_transactions c b))

  abbrev pub append_to : BlockSnapshot → Chain → BlockEntity → AppendStatus × Chain
  append_to s chain tip =
      if leb s.index tip.index
      then (ignored, chain)
      else if not (s.index == suc tip.index) || not (text_eq s.previous_hash tip.hash)
      then (mismatch, chain)
      else if not (is_sound s)
      then (rejected, chain)
      else (accepted, persist_block c (rebuild_block s) s.miner_address chain)

  abbrev pub append_after :
      BlockSnapshot → Chain → Result BlockEntity → Result (AppendStatus × Chain)
  append_after s chain (err e) = err e
  append_after s chain (ok tip) = ok (append_to s chain tip)

  -- appendExternalBlock
  abbrev pub append_external_block : BlockSnapshot → Chain → Result (AppendStatus × Chain)
  append_external_block s chain = append_after s chain (get_latest_block chain)

  abbrev pub links_to : Option BlockSnapshot → BlockSnapshot → Bool
  links_to none s = s.index == 0
  links_to (some p) s = text_eq s.previous_hash p.hash

  abbrev pub sound_after : Option BlockSnapshot → List BlockSnapshot → Bool
  sound_after previous [] = true
  sound_after previous (s ∷ snaps) =
      links_to previous s && (is_sound s && sound_after (some s) snaps)

  -- validateChainSnapshots
  abbrev pub validate_chain_snapshots : List BlockSnapshot → Bool
  validate_chain_snapshots snaps = sound_after none snaps

  abbrev pub persist_snapshots : List BlockSnapshot → Chain → Chain
  persist_snapshots [] chain = chain
  persist_snapshots (s ∷ snaps) chain =
      persist_snapshots snaps (persist_block c (rebuild_block s) s.miner_address chain)

  -- The database transaction of replaceChain.
  abbrev pub replaced_chain : List BlockSnapshot → Chain → Chain
  replaced_chain snaps chain =
      let imported = persist_snapshots snaps (record chain { blocks = []; txs = [] }) in
      record imported { txs = save_transactions (map kept (keep_pending snaps chain)) imported.txs }

  -- replaceChain
  abbrev pub replace_chain : List BlockSnapshot → Chain → ReplaceStatus × Chain
  replace_chain snaps chain =
      if length snaps == 0
      then (refused, chain)
      else if leb (length snaps) (get_height chain)
      then (unchanged, chain)
      else if not (validate_chain_snapshots snaps)
      then (refused, chain)
      else (replaced, replaced_chain snaps chain)

  abbrev pub add_unknown : Transaction → Chain → Option TransactionEntity → AppendStatus × Chain
  add_unknown t chain (some known) = (ignored, chain)
  add_unknown t chain none = if not (is_valid c t) then (rejected, chain) else (
    accepted,
    record chain { txs = save_transaction (to_tx_entity c t pending none) chain.txs },
  )

  -- addExternalTransaction
  abbrev pub add_external_transaction : Transaction → Chain → AppendStatus × Chain
  add_external_transaction t chain =
      add_unknown t chain
        (find (λ (r : TransactionEntity). text_eq r.transaction.id t.id) chain.txs)
