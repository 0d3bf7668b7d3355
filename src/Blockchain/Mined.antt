-- ===== src/Blockchain/Mined.antt =====
-- What it takes for minePending to return.
use zentto_web.Prelude.{
  ℕ, ◌≡◌, refl, sym, true, Option, none, some, List, map, Bool-cases, inl, inr, some_not_none,
}
use zentto_web.Money.{Text}
use zentto_web.Errors.{Error, Result, ok, err}
use zentto_web.Blockchain.{Crypto, Transaction, Block, mine, has_valid_transactions}
use zentto_web.Blockchain.Chain.{
  TransactionEntity, BlockEntity, ChainConfig, Chain, get_pending, get_latest_block,
}
use zentto_web.Blockchain.Node.{
  row_transaction, coinbase, candidate, persist_mined, mined_chain, mine_after, mine_pending,
}

module _ (c : Crypto) (config : ChainConfig) where
  search_done :
      (miner : Text) (reward : Transaction) (rows : List TransactionEntity) (o : Option Block)
      (chain chain' : Chain)
      → mined_chain c config miner reward rows o chain ≡ some (ok chain')
      → (b : Block) × (o ≡ some b) × (chain' ≡ persist_mined c config miner reward rows b chain)
  search_done miner reward rows none chain chain' h = absurd (some_not_none (sym h))
  search_done miner reward rows (some b) chain chain' h = (b, refl, sym (returned h))
    where
      returned : {k k' : Chain} → some (ok k) ≡ some (ok k') → k ≡ k'
      returned h = cc

  -- What it takes for minePending to return.
  pub mine_pending_done :
      (fuel : ℕ) (id miner : Text) (now now' : ℕ) (chain chain' : Chain)
      → mine_pending c config fuel id miner now now' chain ≡ some (ok chain')
      → let reward = coinbase c config id miner now (map row_transaction (get_pending chain)) in
        (tip : BlockEntity) × (b : Block) × (get_latest_block chain ≡ ok tip)
        × (has_valid_transactions c
              (candidate c config reward (map row_transaction (get_pending chain)) now' tip)
            ≡ true)
        × (mine c fuel
              (candidate c config reward (map row_transaction (get_pending chain)) now' tip)
            ≡ some b)
        × (chain' ≡ persist_mined c config miner reward (get_pending chain) b chain)
  mine_pending_done fuel id miner now now' chain chain' done =
      after_tip (get_latest_block chain) refl done
    where
      failed : {e : Error} {k : Chain} → some (err e) ≡ some (ok k) → ⊥
      failed h = cc

      after_tip :
          (r : Result BlockEntity)
          → get_latest_block chain ≡ r
          → mine_after c config fuel id miner now now' chain r ≡ some (ok chain')
          → let reward = coinbase c config id miner now (map row_transaction (get_pending chain)) in
            (tip : BlockEntity) × (b : Block) × (get_latest_block chain ≡ ok tip)
            × (has_valid_transactions c
                  (candidate c config reward (map row_transaction (get_pending chain)) now' tip)
                ≡ true)
            × (mine c fuel
                  (candidate c config reward (map row_transaction (get_pending chain)) now' tip)
                ≡ some b)
            × (chain' ≡ persist_mined c config miner reward (get_pending chain) b chain)
      after_tip (err e) at_tip h = absurd (failed h)
      after_tip (ok tip) at_tip h =
          let reward = coinbase c config id miner now (map row_transaction (get_pending chain)) in
          let cand = candidate c config reward (map row_transaction (get_pending chain)) now' tip in
          elim (Bool-cases (has_valid_transactions c cand)) [
            | inr bad ↦ absurd (failed (rw bad at h))
            | inl good ↦
                let (b, found, e) =
                  search_done miner reward (get_pending chain) (mine c fuel cand) chain chain'
                    (rw good at h) in
                (tip, b, at_tip, good, found, e)
          ]
