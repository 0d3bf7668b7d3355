-- ===== src/Blockchain/Links.antt =====
-- Invariants of a node on the network: indices are consecutive, and each block names the hash of the one before.
use zentto_web.Prelude.{
  map, suc, ◌<◌, ◌≡◌, ◌≢◌, refl, sym, ap, ◌∙◌, true, some, List, [], ◌∷◌, ◌++◌, arith, leb, ◌==◌,
  Bool-cases, inl, inr, ◌⊎◌, some_inj, length, length-append,
}
use zentto_web.Prelude.Texts.{text_eq, text_eq_sound}
use zentto_web.Errors.{Error, Result, ok, err}
use zentto_web.Blockchain.{Crypto, new_block}
use zentto_web.Blockchain.Chain.{
  BlockEntity, BlockSnapshot, Chain, get_latest_block, latest, or_not_found, save_block,
  save_transactions, persist_block,
}
use zentto_web.Blockchain.Network.{
  AppendStatus, accepted, ignored, mismatch, rejected, rebuild_block, is_sound, append_to,
  append_after, append_external_block,
}
use zentto_web.Blockchain.Agreement.{persist_above, latest_above, save_block_above, get_latest_tip}
use zentto_web.Blockchain.Sync.{mined_in, block_row, block_row_index}

-- Blocks that are linked up to the last one.
pub data Linked : List BlockEntity → BlockEntity → Type 0 where
  first_block : (b : BlockEntity) → b.index ≡ 0 → Linked (b ∷ []) b
  next_block :
      (bs : List BlockEntity) (tip b : BlockEntity)
      → Linked bs tip
      → b.index ≡ suc tip.index
      → b.previous_hash ≡ tip.hash
      → Linked (bs ++ b ∷ []) b

abbrev pub IsLinked : Chain → Type 0
IsLinked chain = (tip : BlockEntity) × Linked chain.blocks tip

-- The last block of linked blocks is the latest, and they are as many as its index and one.
pub Linked_latest :
    (bs : List BlockEntity) (tip : BlockEntity)
    → Linked bs tip
    → (latest bs ≡ some tip) × (length bs ≡ suc tip.index)
Linked_latest _ _ (first_block b e) = (refl, omega (arith, e))
Linked_latest _ _ (next_block bs tip b l index link) =
    let (top, many) = Linked_latest bs tip l in
    let above = latest_above bs tip top in
    (
      (save_block_above b tip.index bs (omega (arith, index)) above).1,
      omega (arith, length-append bs (b ∷ []), many, index),
    )

-- A block that follows the latest one keeps the chain linked.
pub link_added :
    (chain : Chain) (b tip : BlockEntity)
    → IsLinked chain
    → get_latest_block chain ≡ ok tip
    → b.index ≡ suc tip.index
    → b.previous_hash ≡ tip.hash
    → Linked (chain.blocks ++ b ∷ []) b
link_added chain b tip (last, l) at_tip index link =
    let same : last ≡ tip =
      some_inj
        (sym (Linked_latest chain.blocks last l).0 ∙ get_latest_tip chain.blocks tip at_tip) in
    next_block chain.blocks last b l (rw same index) (rw same link)

pub link_on :
    (chain : Chain) (b tip : BlockEntity)
    → IsLinked chain
    → get_latest_block chain ≡ ok tip
    → b.index ≡ suc tip.index
    → b.previous_hash ≡ tip.hash
    → Linked (save_block b chain.blocks) b
link_on chain b tip l at_tip index link =
    rw (persist_above b chain tip at_tip (omega (arith, index))).0
      (link_added chain b tip l at_tip index link)

module _ (c : Crypto) where
  -- What appendExternalBlock does: nothing, or it adds the block to the latest one, if it is its successor, names
  -- its hash and is sound.
  append_to-cases :
      (s : BlockSnapshot) (chain : Chain) (tip : BlockEntity) (status : AppendStatus)
      (chain' : Chain)
      → ◌≡◌ {A = AppendStatus × Chain} (append_to c s chain tip) (status, chain')
      → ((status ≡ accepted)
          × (s.index ≡ suc tip.index)
          × (s.previous_hash ≡ tip.hash)
          × (is_sound c s ≡ true)
          × (chain' ≡ persist_block c (rebuild_block c s) s.miner_address chain))
        ⊎ ((status ≢ accepted) × (chain' ≡ chain))
  append_to-cases s chain tip status chain' done = elim (Bool-cases (leb s.index tip.index)) [
    | inl old ↦ inr (unchanged not_ignored (rw old at done))
    | inr new ↦ elim (Bool-cases (s.index == suc tip.index)) [
      | inr gap ↦ inr (unchanged not_mismatch (rw (new, gap) at done))
      | inl next ↦ elim (Bool-cases (text_eq s.previous_hash tip.hash)) [
        | inr fork ↦ inr (unchanged not_mismatch (rw (new, next, fork) at done))
        | inl linked ↦ elim (Bool-cases (is_sound c s)) [
          | inr bad ↦ inr (unchanged not_rejected (rw (new, next, linked, bad) at done))
          | inl good ↦
              let e : ◌≡◌ {A = AppendStatus × Chain}
                  (accepted, persist_block c (rebuild_block c s) s.miner_address chain)
                  (status, chain') =
                rw (new, next, linked, good) at done in
              inl (
                sym (ap (λ (p : AppendStatus × Chain). p.0) e),
                ground (arith, next),
                text_eq_sound s.previous_hash tip.hash linked,
                good,
                sym (ap (λ (p : AppendStatus × Chain). p.1) e),
              )
        ]
      ]
    ]
  ]
    where
      not_ignored : ignored ≢ accepted
      not_ignored h = cc

      not_mismatch : mismatch ≢ accepted
      not_mismatch h = cc

      not_rejected : rejected ≢ accepted
      not_rejected h = cc

      unchanged :
          {st : AppendStatus}
          → st ≢ accepted
          → ◌≡◌ {A = AppendStatus × Chain} (st, chain) (status, chain')
          → (status ≢ accepted) × (chain' ≡ chain)
      unchanged apart e = (
        λ h. apart (ap (λ (p : AppendStatus × Chain). p.0) e ∙ h),
        sym (ap (λ (p : AppendStatus × Chain). p.1) e),
      )

  stored_txs :
      (s : BlockSnapshot) (chain : Chain)
      → (persist_block c (rebuild_block c s) s.miner_address chain).txs
        ≡ save_transactions (map (mined_in c s.index) s.transactions) chain.txs
  unfolding new_block
  stored_txs s chain = refl

  -- The same, read off the chain that is returned.
  pub append_external_block-cases :
      (s : BlockSnapshot) (chain : Chain) (status : AppendStatus) (chain' : Chain)
      → append_external_block c s chain ≡ ok (status, chain')
      → ((status ≡ accepted)
          × (tip : BlockEntity) × (get_latest_block chain ≡ ok tip)
          × (s.index ≡ suc tip.index)
          × (s.previous_hash ≡ tip.hash)
          × (is_sound c s ≡ true)
          × (get_latest_block chain' ≡ ok (block_row c s))
          × (chain'.blocks ≡ chain.blocks ++ block_row c s ∷ [])
          × (chain'.txs ≡ save_transactions (map (mined_in c s.index) s.transactions) chain.txs))
        ⊎ ((status ≢ accepted) × (chain' ≡ chain))
  append_external_block-cases s chain status chain' done =
      after_tip (get_latest_block chain) refl done
    where
      after_tip :
          (r : Result BlockEntity)
          → get_latest_block chain ≡ r
          → append_after c s chain r ≡ ok (status, chain')
          → ((status ≡ accepted)
              × (tip : BlockEntity) × (get_latest_block chain ≡ ok tip)
              × (s.index ≡ suc tip.index)
              × (s.previous_hash ≡ tip.hash)
              × (is_sound c s ≡ true)
              × (get_latest_block chain' ≡ ok (block_row c s))
              × (chain'.blocks ≡ chain.blocks ++ block_row c s ∷ [])
              × (chain'.txs
                  ≡ save_transactions (map (mined_in c s.index) s.transactions) chain.txs))
            ⊎ ((status ≢ accepted) × (chain' ≡ chain))
      after_tip (err e) at_tip h = absurd (failed h)
        where
          failed : {e : Error} {p : AppendStatus × Chain} → err e ≡ ok p → ⊥
          failed h = cc
      after_tip (ok tip) at_tip h = elim (append_to-cases s chain tip status chain' (same h)) [
        | inr none_added ↦ inr none_added
        | inl (yes_added, index, link, sound, e) ↦
            let lt : tip.index < (block_row c s).index =
              omega (arith, index, block_row_index c s) in
            let (added, top) = persist_above (block_row c s) chain tip at_tip lt in
            inl (
              yes_added,
              tip,
              at_tip,
              index,
              link,
              sound,
              ap get_latest_block e ∙ ap or_not_found (ap latest added ∙ top),
              ap Chain.blocks e ∙ added,
              ap Chain.txs e ∙ stored_txs s chain,
            )
      ]
        where
          same : {p q : AppendStatus × Chain} → ok p ≡ ok q → p ≡ q
          same h = cc
