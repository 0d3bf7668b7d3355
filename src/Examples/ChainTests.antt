-- ===== src/Examples/ChainTests.antt =====
-- blockchain/: a premine, a submission, and a block, on two nodes.
use zentto_web.Prelude.{suc, ◌≡◌, ◌≢◌, ◌⊎◌, refl, none, List, [], ◌∷◌, ◌++◌, replicate, filter, map}
use zentto_web.Prelude.Int.{◌+ℤ◌, ◌-ℤ◌}
use zentto_web.Prelude.Texts.{text_eq}
use zentto_web.Errors.{Result, ok, err}
use zentto_web.Blockchain.{
  next_level, levels, merkle_root, transaction_hash, is_valid, block_hash, leading_zeros, new_block,
  mine,
}
use zentto_web.Blockchain.Chain.{
  input_transaction, TransactionEntity, BlockEntity, BlockSnapshot, block_mined, Chain, insert,
  order_by, get_height, get_latest_block,
}
use zentto_web.Blockchain.Network.{
  AppendStatus, accepted, append_external_block, get_chain_snapshot, replace_chain,
}
use zentto_web.Blockchain.Agreement.{mine_pending-append_external_block}
use zentto_web.Blockchain.Sync.{mined_in}
use zentto_web.Blockchain.Rows.{other_ids}
use zentto_web.Blockchain.Links.{Linked}
use zentto_web.Blockchain.Append.{IsTrue, append_external_block_adds}
use zentto_web.Blockchain.Connected.{started, mined_block, chain_stays_linked}
use zentto_web.Examples.ChainData.{
  as_written, crypto, bob, config, first_chain, payment, payment_id, coinbase_id, paid_chain,
  mined_chain, mined_first,
}

chain_stays_linked_example :
    (tip : BlockEntity) × Linked mined_first.blocks tip
    × (get_latest_block mined_first ≡ ok tip)
    × (get_height mined_first ≡ suc tip.index)
unfolding merkle_root levels next_level transaction_hash is_valid block_hash leading_zeros new_block
    mine text_eq insert order_by ◌-ℤ◌ ◌+ℤ◌
chain_stays_linked_example =
    chain_stays_linked crypto config mined_first
      (mined_block 1 coinbase_id bob 8 9 first_chain mined_first (started 1 first_chain refl) refl)

-- The other node has the same blocks and knows nothing of the payment.
mine_pending-append_external_block_example :
    (s : BlockSnapshot) × (mined_chain.events ≡ block_mined s ∷ paid_chain.events)
    × (peer' : Chain) × (append_external_block crypto s first_chain ≡ ok (accepted, peer'))
    × (get_latest_block peer' ≡ get_latest_block mined_chain)
unfolding merkle_root levels next_level transaction_hash is_valid block_hash leading_zeros new_block
    mine text_eq insert order_by ◌-ℤ◌ ◌+ℤ◌
mine_pending-append_external_block_example =
    mine_pending-append_external_block crypto config 1 coinbase_id bob 8 9 paid_chain mined_chain
      first_chain refl refl

abbrev snapshots : List BlockSnapshot
snapshots = get_chain_snapshot as_written mined_chain

-- The rows of a query, the last one first.
abbrev reversed : List TransactionEntity → List TransactionEntity
reversed [] = []
reversed (r ∷ rows) = reversed rows ++ r ∷ []

abbrev replaced_first : Chain
replaced_first = (replace_chain crypto snapshots first_chain).1

-- A block with one payment after the first block.
abbrev second_block : BlockSnapshot
second_block = record {
  index = 1;
  timestamp = 9;
  previous_hash = replicate 64 b'0';
  hash = replicate 64 b'0';
  merkle_root = replicate 64 b'0';
  nonce = 0;
  difficulty = 2;
  miner_address = none;
  transactions = input_transaction payment_id payment ∷ [];
}

abbrev or_else : Chain → Result (AppendStatus × Chain) → Chain
or_else chain (err e) = chain
or_else chain (ok p) = p.1

abbrev appended : Chain
appended = or_else first_chain (append_external_block crypto second_block first_chain)

append_external_block_adds_example :
    ((accepted ≡ accepted)
      × ((tip : BlockEntity) × (get_latest_block first_chain ≡ ok tip)
          × (second_block.index ≡ suc tip.index)
          × (second_block.previous_hash ≡ tip.hash))
      × IsTrue crypto second_block
      × ((b : BlockEntity) × (b.hash ≡ second_block.hash)
          × (get_latest_block appended ≡ ok b)
          × (appended.blocks ≡ first_chain.blocks ++ b ∷ []))
      × (appended.txs
          ≡ filter (other_ids (map (mined_in crypto 1) second_block.transactions)) first_chain.txs
            ++ map (mined_in crypto 1) second_block.transactions))
    ⊎ ((accepted ≢ accepted) × (appended ≡ first_chain))
unfolding merkle_root levels next_level transaction_hash is_valid block_hash leading_zeros new_block
    mine text_eq insert order_by ◌-ℤ◌ ◌+ℤ◌
append_external_block_adds_example =
    append_external_block_adds crypto second_block first_chain accepted appended (refl, tt) refl
