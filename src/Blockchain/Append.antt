-- ===== src/Blockchain/Append.antt =====
-- What appendExternalBlock stores of a block from the network.
use zentto_web.Prelude.{
  ◌≡◌, ◌≢◌, ◌⊎◌, inl, inr, sym, ap, ◌∙◌, Bool, true, List, [], ◌∷◌, ◌++◌, map, suc, all, All,
  and-true, filter,
}
use zentto_web.Prelude.Texts.{text_eq, text_eq_sound}
use zentto_web.Errors.{ok}
use zentto_web.Blockchain.{
  Crypto, Transaction, is_valid, leading_zeros, transaction_hash, merkle_root, meets_target,
  has_valid_proof, new_block,
}
use zentto_web.Blockchain.Chain.{BlockEntity, BlockSnapshot, Chain, get_latest_block}
use zentto_web.Blockchain.Network.{
  AppendStatus, accepted, rebuild_block, is_sound, append_external_block,
}
use zentto_web.Blockchain.Rows.{Distinct, other_ids, saves_lem}
use zentto_web.Blockchain.Sync.{mined_in, block_row, sound_row}
use zentto_web.Blockchain.Links.{append_external_block-cases}

all-All : {A : Type 0} (p : A → Bool) (l : List A) → all p l ≡ true → All (λ (a : A). p a ≡ true) l
all-All p [] h = tt
all-All p (a ∷ l) h = let (here, later) = and-true (p a) (all p l) h in (here, all-All p l later)

module _ (c : Crypto) where
  -- What a sound block states of itself: its Merkle root is that of its transactions, its hash meets the
  -- target that it names, and its transactions are valid.
  pub record IsTrue (s : BlockSnapshot) : Type 0 where
    pub root : s.merkle_root ≡ merkle_root c (map (transaction_hash c) s.transactions)
    pub work : leading_zeros s.difficulty s.hash ≡ true
    pub signed : All (λ (t : Transaction). is_valid c t ≡ true) s.transactions

  sound-IsTrue : (s : BlockSnapshot) → is_sound c s ≡ true → IsTrue s
  unfolding new_block
  sound-IsTrue s h =
      let (a, rest) = and-true (text_eq (rebuild_block c s).hash s.hash) _ h in
      let (b, more) = and-true (text_eq (rebuild_block c s).merkle s.merkle_root) _ rest in
      let (proof, valid) = and-true (has_valid_proof c (rebuild_block c s)) _ more in
      let (target, same) = and-true (meets_target (rebuild_block c s)) _ proof in
      record {
        root = sym (text_eq_sound (rebuild_block c s).merkle s.merkle_root b);
        work =
            ap (leading_zeros s.difficulty) (sym (text_eq_sound (rebuild_block c s).hash s.hash a))
            ∙ target;
        signed = all-All (is_valid c) s.transactions valid;
      }

  -- A block from the network whose transactions have distinct ids is added in full or changes nothing. It is
  -- accepted only if it follows the latest block, names its hash, and states its Merkle root, its proof of
  -- work and its signatures truly; then it is the last block under the hash that it states, each of its
  -- transactions is stored as mined in it, and the other transactions are as they were. Otherwise the chain
  -- is as it was.
  pub append_external_block_adds :
      (s : BlockSnapshot) (chain : Chain) (status : AppendStatus) (chain' : Chain)
      → Distinct (map (mined_in c s.index) s.transactions)
      → append_external_block c s chain ≡ ok (status, chain')
      → ((status ≡ accepted)
          × ((tip : BlockEntity) × (get_latest_block chain ≡ ok tip)
              × (s.index ≡ suc tip.index)
              × (s.previous_hash ≡ tip.hash))
          × IsTrue s
          × ((b : BlockEntity) × (b.hash ≡ s.hash)
              × (get_latest_block chain' ≡ ok b)
              × (chain'.blocks ≡ chain.blocks ++ b ∷ []))
          × (chain'.txs
              ≡ filter (other_ids (map (mined_in c s.index) s.transactions)) chain.txs
                ++ map (mined_in c s.index) s.transactions))
        ⊎ ((status ≢ accepted) × (chain' ≡ chain))
  unfolding new_block
  append_external_block_adds s chain status chain' d done =
      elim (append_external_block-cases c s chain status chain' done) [
        | inr none_added ↦ inr none_added
        | inl (yes_added, tip, at_tip, index, link, sound, top, blocks, txs) ↦ inl (
          yes_added,
          (tip, at_tip, index, link),
          sound-IsTrue s sound,
          (block_row c s, (sound_row c s sound).0, top, blocks),
          txs ∙ saves_lem (map (mined_in c s.index) s.transactions) chain.txs d,
        )
      ]
