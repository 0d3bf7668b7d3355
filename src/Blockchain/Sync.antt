-- ===== src/Blockchain/Sync.antt =====
-- Replacing the chain by a longer one from the network: what is then stored is what was received.
use zentto_web.Prelude.{
  ℕ, suc, ◌<◌, ◌≡◌, ◌≢◌, refl, sym, ap, ◌∙◌, true, false, some, List, [], ◌∷◌, ◌++◌, map, arith,
  filter, ltb, ◌==◌, ==_refl, and-true, All, append_nil, append_assoc, filter-append,
}
use zentto_web.Prelude.Texts.{text_eq, text_eq_sound}
use zentto_web.Blockchain.{Crypto, Transaction, new_block}
use zentto_web.Blockchain.Chain.{
  mined, TransactionEntity, BlockEntity, BlockSnapshot, Chain, save_block, save_transactions,
  insert, order_by, is_in_block, to_tx_entity, to_block_entity, persist_block,
}
use zentto_web.Blockchain.Network.{rebuild_block, is_sound, persist_snapshots}

-- The blocks have consecutive indices.
abbrev pub From : ℕ → List BlockSnapshot → Type 0
From i [] = Unit
From i (s ∷ snaps) = (s.index ≡ i) × From (suc i) snaps

module _ (c : Crypto) where
  abbrev pub mined_in : ℕ → Transaction → TransactionEntity
  mined_in n t = to_tx_entity c t mined (some n)

  -- The rows of the transactions of the blocks.
  abbrev pub snapshot_rows : List BlockSnapshot → List TransactionEntity
  snapshot_rows [] = []
  snapshot_rows (s ∷ snaps) = map (mined_in s.index) s.transactions ++ snapshot_rows snaps

  abbrev pub block_row : BlockSnapshot → BlockEntity
  block_row s = to_block_entity (rebuild_block c s) s.miner_address

  saves_append :
      (xs ys rows : List TransactionEntity)
      → save_transactions (xs ++ ys) rows ≡ save_transactions ys (save_transactions xs rows)
  saves_append [] ys rows = refl
  saves_append (x ∷ xs) ys rows = saves_append xs ys _

  pub persisted_txs :
      (snaps : List BlockSnapshot) (chain : Chain)
      → (persist_snapshots c snaps chain).txs ≡ save_transactions (snapshot_rows snaps) chain.txs
  unfolding new_block
  persisted_txs [] chain = refl
  persisted_txs (s ∷ snaps) chain =
      persisted_txs snaps (persist_block c (rebuild_block c s) s.miner_address chain)
      ∙ sym (saves_append (map (mined_in s.index) s.transactions) (snapshot_rows snaps) chain.txs)

  save_above :
      (b : BlockEntity) (bs : List BlockEntity)
      → All (λ (o : BlockEntity). o.index < b.index) bs
      → save_block b bs ≡ bs ++ b ∷ []
  save_above b [] h = refl
  save_above b (x ∷ xs) h =
      let other : (x.index == b.index) ≡ false = ground (arith, h.0) in
      rw other (ap (λ (l : List BlockEntity). x ∷ l) (save_above b xs h.1))

  below_next :
      (i : ℕ) (b : BlockEntity) (bs : List BlockEntity)
      → b.index ≡ i
      → All (λ (o : BlockEntity). o.index < i) bs
      → All (λ (o : BlockEntity). o.index < suc i) (bs ++ b ∷ [])
  below_next i b [] e h = (omega (arith, e), tt)
  below_next i b (x ∷ xs) e h = (omega (arith, h.0), below_next i b xs e h.1)

  pub block_row_index : (s : BlockSnapshot) → (block_row s).index ≡ s.index
  unfolding new_block
  block_row_index s = refl

  pub persisted_blocks :
      (i : ℕ) (snaps : List BlockSnapshot) (chain : Chain)
      → From i snaps
      → All (λ (b : BlockEntity). b.index < i) chain.blocks
      → (persist_snapshots c snaps chain).blocks ≡ chain.blocks ++ map block_row snaps
  persisted_blocks i [] chain h below = sym (append_nil chain.blocks)
  persisted_blocks i (s ∷ snaps) chain h below =
      let index : (block_row s).index ≡ i = block_row_index s ∙ h.0 in
      let one = save_above (block_row s) chain.blocks (rw index below) in
      let next = persist_block c (rebuild_block c s) s.miner_address chain in
      persisted_blocks (suc i) snaps next h.1
        (rw one (below_next i (block_row s) chain.blocks index below))
      ∙ ap (λ (l : List BlockEntity). l ++ map block_row snaps) one
      ∙ append_assoc chain.blocks (block_row s ∷ []) (map block_row snaps)

  -- Blocks in the order of their indices are not moved by ORDER BY.
  pub order_blocks :
      (i : ℕ) (snaps : List BlockSnapshot)
      → From i snaps
      → order_by (λ (b : BlockEntity). b.index) (map block_row snaps) ≡ map block_row snaps
  unfolding order_by insert
  order_blocks i [] h = refl
  order_blocks i (s ∷ snaps) h =
      rw (order_blocks (suc i) snaps h.1) (first (block_row s) snaps (block_row_index s ∙ h.0) h.1)
    where
      first :
          (b : BlockEntity) (snaps : List BlockSnapshot)
          → b.index ≡ i
          → From (suc i) snaps
          → insert (λ (b : BlockEntity). b.index) b (map block_row snaps) ≡ b ∷ map block_row snaps
      first b [] e h = refl
      first b (x ∷ xs) e h =
          let ahead : ltb (block_row x).index b.index ≡ false =
            ground (arith, block_row_index x, h.0, e) in
          rw ahead

  pub rows_of_block :
      (n : ℕ) (ts : List Transaction)
      → filter (is_in_block n) (map (mined_in n) ts) ≡ map (mined_in n) ts
  rows_of_block n [] = refl
  rows_of_block n (t ∷ ts) =
      rw (==_refl n) (ap (λ (l : List TransactionEntity). mined_in n t ∷ l) (rows_of_block n ts))

  pub rows_elsewhere :
      (n m : ℕ) (ts : List Transaction) → n ≢ m → filter (is_in_block n) (map (mined_in m) ts) ≡ []
  rows_elsewhere n m [] apart = refl
  rows_elsewhere n m (t ∷ ts) apart =
      let other : (m == n) ≡ false = ground (arith, apart) in rw other (rows_elsewhere n m ts apart)

  pub rows_later :
      (n i : ℕ) (snaps : List BlockSnapshot)
      → n < i
      → From i snaps
      → filter (is_in_block n) (snapshot_rows snaps) ≡ []
  rows_later n i [] lt h = refl
  rows_later n i (s ∷ snaps) lt h =
      rw
        (
          filter-append (is_in_block n) (map (mined_in s.index) s.transactions)
              (snapshot_rows snaps),
          rows_elsewhere n s.index s.transactions (omega (arith, lt, h.0)),
        )
        (rows_later n (suc i) snaps (omega (arith, lt)) h.1)

  pub transactions_of :
      (n : ℕ) (ts : List Transaction)
      → map (λ (r : TransactionEntity). r.transaction) (map (mined_in n) ts) ≡ ts
  transactions_of n [] = refl
  transactions_of n (t ∷ ts) = ap (λ (l : List Transaction). t ∷ l) (transactions_of n ts)

  pub sound_row :
      (s : BlockSnapshot)
      → is_sound c s ≡ true
      → ((block_row s).hash ≡ s.hash) × ((block_row s).merkle_root ≡ s.merkle_root)
  sound_row s h =
      let (a, rest) = and-true (text_eq (rebuild_block c s).hash s.hash) _ h in
      let (b, more) = and-true (text_eq (rebuild_block c s).merkle s.merkle_root) _ rest in
      (
        text_eq_sound (rebuild_block c s).hash s.hash a,
        text_eq_sound (rebuild_block c s).merkle s.merkle_root b,
      )
