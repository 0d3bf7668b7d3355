-- ===== src/Blockchain/Agreement.antt =====
-- Nodes agree: a block that one node mines extends every node with the same tip, and blocks stay linked.
use zentto_web.Prelude.{
  ℕ, suc, ◌≤◌, ◌<◌, ◌≡◌, refl, sym, ap, ◌∙◌, Bool, true, false, ◌&&◌, Option, none, some, List, [],
  ◌∷◌, ◌++◌, map, arith, ltb, leb, ◌==◌, Bool-cases, inl, inr, All, some_not_none, some_inj,
}
use zentto_web.Prelude.Texts.{text_eq, text_eq_refl}
use zentto_web.Money.{Text}
use zentto_web.Errors.{not_found, ok, err}
use zentto_web.Blockchain.{
  Crypto, Transaction, Block, block_hash, new_block, mine, has_valid_transactions,
}
use zentto_web.Blockchain.Mining.{mine_found}
use zentto_web.Blockchain.Chain.{
  BlockEntity, BlockSnapshot, block_mined, ChainConfig, Chain, get_pending, get_latest_block,
  higher, latest, or_not_found, save_block, to_block_entity, block_to_snapshot, persist_block,
}
use zentto_web.Blockchain.Node.{row_transaction, coinbase, mine_pending}
use zentto_web.Blockchain.Network.{
  accepted, rebuild_block, is_sound, append_to, append_after, append_external_block,
}
use zentto_web.Blockchain.Mined.{mine_pending_done}

-- No block has a higher index than the latest.
abbrev pub Below : ℕ → List BlockEntity → Type 0
Below n bs = All (λ (b : BlockEntity). b.index ≤ n) bs

pub Below-weaken : (m n : ℕ) (bs : List BlockEntity) → m ≤ n → Below m bs → Below n bs
Below-weaken m n [] h b = tt
Below-weaken m n (x ∷ xs) h b = (omega (arith, h, b.0), Below-weaken m n xs h b.1)

pub latest_above :
    (bs : List BlockEntity) (tip : BlockEntity) → latest bs ≡ some tip → Below tip.index bs
latest_above [] tip h = absurd (some_not_none (sym h))
latest_above (b ∷ bs) tip h = over (latest bs) refl (some_inj h) (λ l e. latest_above bs l e)
  where
    none_left : (bs : List BlockEntity) (n : ℕ) → latest bs ≡ none → Below n bs
    none_left [] n h = tt
    none_left (b ∷ bs) n h = absurd (some_not_none h)

    over :
        (o : Option BlockEntity)
        → latest bs ≡ o
        → higher b o ≡ tip
        → ((l : BlockEntity) → latest bs ≡ some l → Below l.index bs)
        → Below tip.index (b ∷ bs)
    over none e h rest = (rw (ap BlockEntity.index h) (omega arith), none_left bs tip.index e)
    over (some l) e h rest = elim (Bool-cases (ltb b.index l.index)) [
      | inl less ↦
          let same : l ≡ tip = rw less at h in
          let top : l.index ≡ tip.index = ap BlockEntity.index same in
          (
            ground (arith, less, top),
            Below-weaken l.index tip.index bs (omega (arith, top)) (rest l e),
          )
      | inr more ↦
          let same : b ≡ tip = rw more at h in
          let top : b.index ≡ tip.index = ap BlockEntity.index same in
          (
            omega (arith, top),
            Below-weaken l.index tip.index bs (ground (arith, more, top)) (rest l e),
          )
    ]

-- A block above all others is added, and is the latest.
pub save_block_above :
    (b : BlockEntity) (n : ℕ) (bs : List BlockEntity)
    → n < b.index
    → Below n bs
    → (save_block b bs ≡ bs ++ b ∷ []) × (latest (bs ++ b ∷ []) ≡ some b)
save_block_above b n [] lt h = (refl, refl)
save_block_above b n (x ∷ xs) lt h =
    let (rest, top) = save_block_above b n xs lt h.1 in
    let other : (x.index == b.index) ≡ false = ground (arith, h.0) in
    let less : ltb x.index b.index ≡ true = ground (arith, h.0) in
    (rw other (ap (λ (l : List BlockEntity). x ∷ l) rest), rw (top, less))

pub get_latest_tip :
    (bs : List BlockEntity) (tip : BlockEntity)
    → or_not_found (latest bs) ≡ ok tip
    → latest bs ≡ some tip
get_latest_tip bs tip h = found (latest bs) h
  where
    found : (o : Option BlockEntity) → or_not_found o ≡ ok tip → o ≡ some tip
    found none h = absurd (missing h)
      where
        missing : err not_found ≡ ok tip → ⊥
        missing h = cc
    found (some t) h = ap some (same h)
      where
        same : {t : BlockEntity} → ok t ≡ ok tip → t ≡ tip
        same h = cc

pub persist_above :
    (b : BlockEntity) (chain : Chain) (tip : BlockEntity)
    → get_latest_block chain ≡ ok tip
    → tip.index < b.index
    → (save_block b chain.blocks ≡ chain.blocks ++ b ∷ [])
      × (latest (chain.blocks ++ b ∷ []) ≡ some b)
persist_above b chain tip at_tip lt =
    save_block_above b tip.index chain.blocks lt
      (latest_above chain.blocks tip (get_latest_tip chain.blocks tip at_tip))

module _ (c : Crypto) where
  -- The snapshot of a block that was mined is sound, and is rebuilt as that block.
  pub mined_sound :
      (b : Block) (index now : ℕ) (ts : List Transaction) (previous_hash : Text)
      (difficulty fuel : ℕ) (miner : Option Text)
      → mine c fuel (new_block c index now ts previous_hash difficulty) ≡ some b
      → has_valid_transactions c (new_block c index now ts previous_hash difficulty) ≡ true
      → (is_sound c (block_to_snapshot b miner) ≡ true)
        × (rebuild_block c (block_to_snapshot b miner) ≡ b)
        × (b.index ≡ index)
        × (b.previous_hash ≡ previous_hash)
  unfolding new_block block_hash
  mined_sound b index now ts previous_hash difficulty fuel miner found good =
      let b0 = new_block c index now ts previous_hash difficulty in
      let (m, same, met) = mine_found c b0 fuel 0 b found in
      (
        rw same (all_five (text_eq_refl _) (text_eq_refl _) met (text_eq_refl _) good),
        rw same,
        ap Block.index same,
        ap Block.previous_hash same,
      )
    where
      all_five :
          {p q r s t : Bool}
          → p ≡ true
          → q ≡ true
          → r ≡ true
          → s ≡ true
          → t ≡ true
          → (p && (q && ((r && s) && t))) ≡ true
      all_five hp hq hr hs ht = rw (hp, hq, hr, hs, ht)

  append_to_next :
      (s : BlockSnapshot) (chain : Chain) (tip : BlockEntity)
      → s.index ≡ suc tip.index
      → s.previous_hash ≡ tip.hash
      → is_sound c s ≡ true
      → append_to c s chain tip
        ≡ (accepted, persist_block c (rebuild_block c s) s.miner_address chain)
  append_to_next s chain tip index link sound =
      let new : leb s.index tip.index ≡ false = ground (arith, index) in
      let next : (s.index == suc tip.index) ≡ true = ground (arith, index) in
      let linked : text_eq s.previous_hash tip.hash ≡ true = rw link (text_eq_refl tip.hash) in
      rw (new, next, linked, sound)

  -- A block that a node mines is accepted by every node with the same latest block, and afterwards both have
  -- the same latest block again.
  pub mine_pending-append_external_block :
      (config : ChainConfig) (fuel : ℕ) (id miner : Text) (now now' : ℕ) (chain chain' peer : Chain)
      → mine_pending c config fuel id miner now now' chain ≡ some (ok chain')
      → get_latest_block peer ≡ get_latest_block chain
      → (s : BlockSnapshot) × (chain'.events ≡ block_mined s ∷ chain.events)
        × (peer' : Chain) × (append_external_block c s peer ≡ ok (accepted, peer'))
        × (get_latest_block peer' ≡ get_latest_block chain')
  mine_pending-append_external_block config fuel id miner now now' chain chain' peer done same_tip =
      let (tip, b, at_tip, good, found, e) =
        mine_pending_done c config fuel id miner now now' chain chain' done in
      let reward = coinbase c config id miner now (map row_transaction (get_pending chain)) in
      let ts = reward ∷ map row_transaction (get_pending chain) in
      let s = block_to_snapshot b (some miner) in
      let (sound, again, index, link) =
        mined_sound b (suc tip.index) now' ts tip.hash config.difficulty fuel (some miner) found
          good in
      let lt : tip.index < b.index = omega (arith, index) in
      let row = to_block_entity b (some miner) in
      let here = persist_above row chain tip at_tip lt in
      let there = persist_above row peer tip (same_tip ∙ at_tip) lt in
      (
        s,
        rw e,
        persist_block c b (some miner) peer,
        ap (append_after c s peer) (same_tip ∙ at_tip)
            ∙ ap ok (
                append_to_next s peer tip index link sound
                ∙ ap (λ (x : Block). (accepted, persist_block c x (some miner) peer)) again),
        ap or_not_found (ap latest there.0 ∙ there.1)
            ∙ sym (ap get_latest_block e ∙ ap or_not_found (ap latest here.0 ∙ here.1)),
      )
