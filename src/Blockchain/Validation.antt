-- ===== src/Blockchain/Validation.antt =====
-- validateChain against the check that other nodes make.
use zentto_web.Prelude.{
  ◌≡◌, refl, ap, Bool, true, false, not, ◌&&◌, Option, none, some, List, [], ◌∷◌, map, arith, ltb,
  and-true,
}
use zentto_web.Prelude.Texts.{text_eq}
use zentto_web.Blockchain.{Crypto, has_valid_proof, has_valid_transactions}
use zentto_web.Blockchain.Chain.{
  TransactionEntity, BlockEntity, BlockSnapshot, Chain, order_by, rows_in,
}
use zentto_web.Blockchain.Node.{
  row_transaction, rebuilt, link_errors, block_errors, chain_errors, is_empty_list, validate_chain,
}
use zentto_web.Blockchain.Network.{
  block_snapshot, get_chain_snapshot, is_sound, links_to, sound_after, validate_chain_snapshots,
}

module _ (c : Crypto) (rows : List TransactionEntity → List TransactionEntity) (chain : Chain) where
  abbrev before : Option BlockEntity → Option BlockSnapshot
  before none = none
  before (some b) = some (block_snapshot rows chain b)

  sound_block :
      (stored : BlockEntity)
      → is_sound c (block_snapshot rows chain stored) ≡ true
      → let b = rebuilt c stored (map row_transaction (rows_in rows stored.index chain)) in
        (text_eq b.hash stored.hash ≡ true)
        × (has_valid_proof c b ≡ true)
        × (has_valid_transactions c b ≡ true)
  sound_block stored h =
      let b = rebuilt c stored (map row_transaction (rows_in rows stored.index chain)) in
      let (hash, rest) = and-true (text_eq b.hash stored.hash) _ h in
      let (merkle, both) = and-true (text_eq b.merkle stored.merkle_root) _ rest in
      let (proof, good) = and-true (has_valid_proof c b) (has_valid_transactions c b) both in
      (hash, proof, good)

  no_errors :
      (previous : Option BlockEntity) (stored : BlockEntity)
      → is_sound c (block_snapshot rows chain stored) ≡ true
      → ((p : BlockEntity) → previous ≡ some p → text_eq stored.previous_hash p.hash ≡ true)
      → block_errors c rows chain previous stored ≡ []
  no_errors previous stored h link =
      let (hash, proof, good) = sound_block stored h in
      rw (hash, good, quiet (ltb 0 stored.index) proof) (linked previous link)
    where
      quiet : (a : Bool) {b : Bool} → b ≡ true → (a && not b) ≡ false
      quiet a h = ground arith

      linked :
          (previous : Option BlockEntity)
          → ((p : BlockEntity) → previous ≡ some p → text_eq stored.previous_hash p.hash ≡ true)
          → link_errors previous stored ≡ []
      linked none link = refl
      linked (some p) link = rw (link p refl)

  no_chain_errors :
      (previous : Option BlockEntity) (bs : List BlockEntity)
      → sound_after c (before previous) (map (block_snapshot rows chain) bs) ≡ true
      → chain_errors c rows chain previous bs ≡ []
  no_chain_errors previous [] h = refl
  no_chain_errors previous (stored ∷ bs) h =
      let s = block_snapshot rows chain stored in
      let (link, rest) = and-true (links_to c (before previous) s) _ h in
      let (here, later) = and-true (is_sound c s) _ rest in
      rw (
        no_errors previous stored here (λ p e. rw e at link),
        no_chain_errors (some stored) bs later,
      )

  -- A chain whose snapshot the other nodes take as valid is reported as valid, with no error, by validateChain,
  -- in whatever order the database returns the rows of a block.
  pub validate_chain-get_chain_snapshot :
      validate_chain_snapshots c (get_chain_snapshot rows chain) ≡ true
      → ((validate_chain c rows chain).valid ≡ true) × ((validate_chain c rows chain).errors ≡ [])
  validate_chain-get_chain_snapshot h =
      let quiet = no_chain_errors none (order_by (λ (b : BlockEntity). b.index) chain.blocks) h in
      (ap is_empty_list quiet, quiet)
