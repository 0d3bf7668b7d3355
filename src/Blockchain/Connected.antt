-- ===== src/Blockchain/Connected.antt =====
-- The invariant of a node of the network: its blocks are linked, from index 0, whatever it mines and receives.
use zentto_web.Prelude.{
  ℕ, suc, ◌≡◌, refl, sym, ap, ◌∙◌, true, Option, none, some, List, [], ◌∷◌, ◌++◌, map, arith,
  and-true, Bool-cases, inl, inr, some_inj, some_not_none, append_assoc, append_nil, find,
}
use zentto_web.Prelude.Int.{ltb_ℤ, ◌+ℤ◌}
use zentto_web.Prelude.Texts.{text_eq, text_eq_sound}
use zentto_web.Money.{Text}
use zentto_web.Errors.{Error, ok, err}
use zentto_web.Blockchain.{Crypto, Transaction, Block, block_hash, new_block, mine, is_valid}
use zentto_web.Blockchain.Mining.{mine_found}
use zentto_web.Blockchain.Chain.{
  TransactionEntity, BlockEntity, BlockSnapshot, ChainConfig, Chain, get_height, get_latest_block,
  or_not_found, SubmitTransactionInput, input_transaction, get_available_balance,
  submit_transaction, get_pending, to_block_entity,
}
use zentto_web.Blockchain.Node.{
  genesis_block, persist_genesis, create_genesis_block, row_transaction, coinbase, mine_pending,
}
use zentto_web.Blockchain.Network.{
  AppendStatus, ReplaceStatus, replaced, is_sound, links_to, sound_after, append_external_block,
  replace_chain, add_unknown, add_external_transaction,
}
use zentto_web.Blockchain.Mined.{mine_pending_done}
use zentto_web.Blockchain.Agreement.{mined_sound}
use zentto_web.Blockchain.Sync.{From, block_row, block_row_index, sound_row, persisted_blocks}
use zentto_web.Blockchain.Replace.{replace_chain_done}
use zentto_web.Blockchain.Links.{
  Linked, first_block, next_block, IsLinked, Linked_latest, link_on, link_added,
  append_external_block-cases,
}

abbrev pub empty_chain : Chain
empty_chain = record { blocks = []; txs = []; events = [] }

module _ (c : Crypto) (config : ChainConfig) where
  -- What a node does, by itself and with what it receives: a replacement is limited to chains whose indices are
  -- consecutive from 0.
  pub data Run : Chain → Type 0 where
    started :
        (fuel : ℕ) (chain : Chain)
        → create_genesis_block c config fuel empty_chain ≡ some chain
        → Run chain
    submitted :
        (rows : List TransactionEntity → List TransactionEntity) (id : Text)
        (input : SubmitTransactionInput) (chain chain' : Chain)
        → Run chain
        → submit_transaction c rows id input chain ≡ ok chain'
        → Run chain'
    mined_block :
        (fuel : ℕ) (id miner : Text) (now now' : ℕ) (chain chain' : Chain)
        → Run chain
        → mine_pending c config fuel id miner now now' chain ≡ some (ok chain')
        → Run chain'
    received_block :
        (s : BlockSnapshot) (status : AppendStatus) (chain chain' : Chain)
        → Run chain
        → append_external_block c s chain ≡ ok (status, chain')
        → Run chain'
    received_transaction :
        (t : Transaction) (chain : Chain) → Run chain → Run (add_external_transaction c t chain).1
    received_chain :
        (snaps : List BlockSnapshot) (chain chain' : Chain)
        → Run chain
        → From 0 snaps
        → ◌≡◌ {A = ReplaceStatus × Chain} (replace_chain c snaps chain) (replaced, chain')
        → Run chain'

  abbrev SameBlocks : Chain → Chain → Type 0
  SameBlocks chain chain' = chain'.blocks ≡ chain.blocks

  submit_blocks :
      (rows : List TransactionEntity → List TransactionEntity) (id : Text)
      (input : SubmitTransactionInput) (chain chain' : Chain)
      → submit_transaction c rows id input chain ≡ ok chain'
      → SameBlocks chain chain'
  submit_blocks rows id input chain chain' done =
      let t = input_transaction id input in
      elim (Bool-cases (is_valid c t)) [
        | inr bad ↦ absurd (failed (rw bad at done))
        | inl good ↦
            elim (Bool-cases (
              ltb_ℤ (get_available_balance c rows chain input.from_address)
                (c.round (t.amount +ℤ t.fee)))) [
                  | inl short ↦ absurd (failed (rw (good, short) at done))
                  | inr enough ↦ sym (ap Chain.blocks (same (rw (good, enough) at done)))
                ]
      ]
    where
      failed : {e : Error} {k : Chain} → err e ≡ ok k → ⊥
      failed h = cc

      same : {k k' : Chain} → ok k ≡ ok k' → k ≡ k'
      same h = cc

  received_blocks :
      (t : Transaction) (chain : Chain) → SameBlocks chain (add_external_transaction c t chain).1
  received_blocks t chain =
      added (find (λ (r : TransactionEntity). text_eq r.transaction.id t.id) chain.txs)
    where
      added : (o : Option TransactionEntity) → SameBlocks chain (add_unknown c t chain o).1
      added (some known) = refl
      added none = elim (Bool-cases (is_valid c t)) [ inl good ↦ rw good | inr bad ↦ rw bad ]

  started-IsLinked :
      (fuel : ℕ) (chain : Chain)
      → create_genesis_block c config fuel empty_chain ≡ some chain
      → IsLinked chain
  unfolding new_block block_hash
  started-IsLinked fuel chain h = after_search (mine c fuel (genesis_block c config)) refl h
    where
      after_search :
          (o : Option Block)
          → mine c fuel (genesis_block c config) ≡ o
          → persist_genesis c config o empty_chain ≡ some chain
          → IsLinked chain
      after_search none e h = absurd (some_not_none (sym h))
      after_search (some b) e h =
          let (m, same, met) = mine_found c (genesis_block c config) fuel 0 b e in
          rw (sym (some_inj h))
            (to_block_entity b none, first_block (to_block_entity b none) (ap Block.index same))

  mined-IsLinked :
      (fuel : ℕ) (id miner : Text) (now now' : ℕ) (chain chain' : Chain)
      → IsLinked chain
      → mine_pending c config fuel id miner now now' chain ≡ some (ok chain')
      → IsLinked chain'
  mined-IsLinked fuel id miner now now' chain chain' l done =
      let (tip, b, at_tip, good, found, e) =
        mine_pending_done c config fuel id miner now now' chain chain' done in
      let ts =
        coinbase c config id miner now (map row_transaction (get_pending chain))
        ∷ map row_transaction (get_pending chain) in
      let (sound, again, index, link) =
        mined_sound c b (suc tip.index) now' ts tip.hash config.difficulty fuel (some miner) found
          good in
      rw e (
        to_block_entity b (some miner),
        link_on chain (to_block_entity b (some miner)) tip l at_tip index link,
      )

  block_row_link : (s : BlockSnapshot) → (block_row c s).previous_hash ≡ s.previous_hash
  unfolding new_block
  block_row_link s = refl

  snapshots-Linked :
      (bs : List BlockEntity) (tip : BlockEntity) (p : BlockSnapshot) (snaps : List BlockSnapshot)
      → Linked bs tip
      → tip.hash ≡ p.hash
      → From (suc tip.index) snaps
      → sound_after c (some p) snaps ≡ true
      → (last : BlockEntity) × Linked (bs ++ map (block_row c) snaps) last
  snapshots-Linked bs tip p [] l e h sound = (tip, rw (append_nil bs) l)
  snapshots-Linked bs tip p (s ∷ snaps) l e h sound =
      let (link, rest) = and-true (text_eq s.previous_hash p.hash) _ sound in
      let (here, later) = and-true (is_sound c s) _ rest in
      let index : (block_row c s).index ≡ suc tip.index = block_row_index c s ∙ h.0 in
      let linked : (block_row c s).previous_hash ≡ tip.hash =
        block_row_link s ∙ text_eq_sound s.previous_hash p.hash link ∙ sym e in
      rw (sym (append_assoc bs (block_row c s ∷ []) (map (block_row c) snaps))) (
        snapshots-Linked (bs ++ block_row c s ∷ []) (block_row c s) s snaps
          (next_block bs tip (block_row c s) l index linked) (sound_row c s here).0 (rw index h.1)
          later)

  replaced-IsLinked :
      (snaps : List BlockSnapshot) (chain chain' : Chain)
      → From 0 snaps
      → ◌≡◌ {A = ReplaceStatus × Chain} (replace_chain c snaps chain) (replaced, chain')
      → IsLinked chain'
  replaced-IsLinked [] chain chain' h done =
      absurd (omega (arith, (replace_chain_done c [] chain chain' done).0))
  replaced-IsLinked (s ∷ snaps) chain chain' h done =
      let (longer, sound, e) = replace_chain_done c (s ∷ snaps) chain chain' done in
      let (link, rest) = and-true (links_to c none s) _ sound in
      let (here, later) = and-true (is_sound c s) _ rest in
      let index : (block_row c s).index ≡ 0 = block_row_index c s ∙ h.0 in
      let (last, l) =
        snapshots-Linked (block_row c s ∷ []) (block_row c s) s snaps
          (first_block (block_row c s) index) (sound_row c s here).0 (rw index h.1) later in
      let blocks : chain'.blocks ≡ map (block_row c) (s ∷ snaps) =
        ap Chain.blocks e
        ∙ persisted_blocks c 0 (s ∷ snaps) (record chain { blocks = []; txs = [] }) h tt in
      (last, rw blocks l)

  received-IsLinked :
      (s : BlockSnapshot) (status : AppendStatus) (chain chain' : Chain)
      → IsLinked chain
      → append_external_block c s chain ≡ ok (status, chain')
      → IsLinked chain'
  received-IsLinked s status chain chain' l h =
      elim (append_external_block-cases c s chain status chain' h) [
        | inl (added, tip, at_tip, index, link, sound, top, blocks, txs) ↦ (
          block_row c s,
          rw blocks (
              link_added chain (block_row c s) tip l at_tip (block_row_index c s ∙ index)
                (block_row_link s ∙ link)),
        )
        | inr (apart, same) ↦ rw same l
      ]

  Run-IsLinked : (chain : Chain) → Run chain → IsLinked chain
  Run-IsLinked _ (started fuel chain h) = started-IsLinked fuel chain h
  Run-IsLinked _ (submitted rows id input chain chain' r h) =
      let (tip, l) = Run-IsLinked chain r in
      (tip, rw (submit_blocks rows id input chain chain' h) l)
  Run-IsLinked _ (mined_block fuel id miner now now' chain chain' r h) =
      mined-IsLinked fuel id miner now now' chain chain' (Run-IsLinked chain r) h
  Run-IsLinked _ (received_block s status chain chain' r h) =
      received-IsLinked s status chain chain' (Run-IsLinked chain r) h
  Run-IsLinked _ (received_transaction t chain r) =
      let (tip, l) = Run-IsLinked chain r in (tip, rw (received_blocks t chain) l)
  Run-IsLinked _ (received_chain snaps chain chain' r h done) =
      replaced-IsLinked snaps chain chain' h done

  -- On every chain that a node comes to by mining, submissions and what it receives, where a replacement has
  -- consecutive indices, every block follows the one before it and names its hash, the first has index 0, and
  -- the height is one more than the index of the latest block.
  pub chain_stays_linked :
      (chain : Chain)
      → Run chain
      → (tip : BlockEntity) × Linked chain.blocks tip
        × (get_latest_block chain ≡ ok tip)
        × (get_height chain ≡ suc tip.index)
  chain_stays_linked chain r =
      let (tip, l) = Run-IsLinked chain r in
      let (top, many) = Linked_latest chain.blocks tip l in (tip, l, ap or_not_found top, many)
