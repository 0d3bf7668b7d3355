-- ===== src/Gossip/Seen.antt =====
-- The sets of what was seen: a block or a transaction is handled once, so gossip comes to an end.
use mathlib.Core.List.{Memᴰ}
use zentto_web.Prelude.{
  All, ◌≢◌, ℕ, ◌≡◌, refl, Bool, true, false, none, some, List, [], ◌∷◌, ◌++◌, arith, Bool-cases,
  inl, inr,
}
use zentto_web.Prelude.Texts.{text_eq_refl}
use zentto_web.Money.{Text}
use zentto_web.Errors.{Result, ok, err}
use zentto_web.Blockchain.{Crypto, Transaction}
use zentto_web.Blockchain.Chain.{
  TransactionEntity, BlockSnapshot, Chain, ChainConfig, block_mined, get_latest_block,
}
use zentto_web.Blockchain.Network.{
  AppendStatus, accepted, ignored, mismatch, rejected, ReplaceStatus, replaced, unchanged, refused,
  append_external_block, replace_chain, add_external_transaction,
}
use zentto_web.Blockchain.Node.{mine_pending}
use zentto_web.Blockchain.Agreement.{mine_pending-append_external_block}
use zentto_web.Gossip.Broadcast.{broadcast-reaches, broadcast_only}
use zentto_web.Gossip.{
  Message, hello, get_chain, chain, new_block, new_transaction, get_peers, peers, Node, Sent, has,
  add, add_all, hashes, mark_chain, spread_block, spread_transaction, on_new_block,
  on_new_transaction, handle_message,
}

has-append : (x y : Text) (xs : List Text) → has x xs ≡ true → has x (xs ++ y ∷ []) ≡ true
has-append x y (z ∷ zs) h = ground (arith, has-append x y zs)
has-append x y [] h = cc

has_last : (x : Text) (xs : List Text) → has x (xs ++ x ∷ []) ≡ true
has_last x [] = rw (text_eq_refl x)
has_last x (y ∷ ys) = ground (arith, has_last x ys)

add-has : (x y : Text) (xs : List Text) → has x xs ≡ true → has x (add y xs) ≡ true
add-has x y xs h = elim (Bool-cases (has y xs)) [
  | inl known ↦ rw known h
  | inr new ↦ rw new (has-append x y xs h)
]

add_all-has : (x : Text) (ys xs : List Text) → has x xs ≡ true → has x (add_all ys xs) ≡ true
add_all-has x [] xs h = h
add_all-has x (y ∷ ys) xs h = add_all-has x ys (add y xs) (add-has x y xs h)

-- What a node has seen, it has seen for good.
abbrev pub Remembers : Node → Node → Type 0
Remembers node node' =
    ((x : Text) → has x node.seen_blocks ≡ true → has x node'.seen_blocks ≡ true)
    × ((x : Text) → has x node.seen_txs ≡ true → has x node'.seen_txs ≡ true)

module _ (is_open : ℕ → Bool) (c : Crypto)
    (rows : List TransactionEntity → List TransactionEntity) where
  mark-Remembers :
      (snaps : List BlockSnapshot) (node : Node) (r : ReplaceStatus × Chain)
      → Remembers node (mark_chain is_open c rows snaps node r).0
  mark-Remembers snaps node (replaced, chain') =
      (λ x h. add_all-has x (hashes snaps) node.seen_blocks h, λ x h. h)
  mark-Remembers snaps node (unchanged, chain') = (λ x h. h, λ x h. h)
  mark-Remembers snaps node (refused, chain') = (λ x h. h, λ x h. h)

  spread_block_seen :
      (from : ℕ) (s : BlockSnapshot) (node : Node) (r : Result (AppendStatus × Chain))
      → let node' = (spread_block is_open c rows from s node r).0 in
        (node'.seen_blocks ≡ node.seen_blocks) × (node'.seen_txs ≡ node.seen_txs)
  spread_block_seen from s node (err e) = (refl, refl)
  spread_block_seen from s node (ok (accepted, chain')) = (refl, refl)
  spread_block_seen from s node (ok (mismatch, chain')) = (refl, refl)
  spread_block_seen from s node (ok (ignored, chain')) = (refl, refl)
  spread_block_seen from s node (ok (rejected, chain')) = (refl, refl)

  spread_transaction_seen :
      (from : ℕ) (t : Transaction) (node : Node) (r : AppendStatus × Chain)
      → let node' = (spread_transaction is_open c rows from t node r).0 in
        (node'.seen_blocks ≡ node.seen_blocks) × (node'.seen_txs ≡ node.seen_txs)
  spread_transaction_seen from t node (accepted, chain') = (refl, refl)
  spread_transaction_seen from t node (mismatch, chain') = (refl, refl)
  spread_transaction_seen from t node (ignored, chain') = (refl, refl)
  spread_transaction_seen from t node (rejected, chain') = (refl, refl)

  on_new_block-Remembers :
      (from : ℕ) (s : BlockSnapshot) (node : Node)
      → let node' = (on_new_block is_open c rows from s node).0 in
        Remembers node node' × (has s.hash node'.seen_blocks ≡ true)
  on_new_block-Remembers from s node = elim (Bool-cases (has s.hash node.seen_blocks)) [
    | inl known ↦ rw known ((λ x h. h, λ x h. h), known)
    | inr new ↦
        let marked : Node = record node { seen_blocks = node.seen_blocks ++ s.hash ∷ [] } in
        let (blocks, txs) =
          spread_block_seen from s marked (append_external_block c s node.ledger) in
        rw new (
          (λ x h. rw blocks (has-append x s.hash node.seen_blocks h), λ x h. rw txs h),
          rw blocks (has_last s.hash node.seen_blocks),
        )
  ]

  on_new_transaction-Remembers :
      (from : ℕ) (t : Transaction) (node : Node)
      → let node' = (on_new_transaction is_open c rows from t node).0 in
        Remembers node node' × (has t.id node'.seen_txs ≡ true)
  on_new_transaction-Remembers from t node = elim (Bool-cases (has t.id node.seen_txs)) [
    | inl known ↦ rw known ((λ x h. h, λ x h. h), known)
    | inr new ↦
        let marked : Node = record node { seen_txs = node.seen_txs ++ t.id ∷ [] } in
        let (blocks, txs) =
          spread_transaction_seen from t marked (add_external_transaction c t node.ledger) in
        rw new (
          (λ x h. rw blocks h, λ x h. rw txs (has-append x t.id node.seen_txs h)),
          rw txs (has_last t.id node.seen_txs),
        )
  ]

  handle_message-Remembers :
      (ws : ℕ) (msg : Message) (node : Node)
      → Remembers node (handle_message is_open c rows ws msg node).0
  unfolding handle_message
  handle_message-Remembers ws (hello none) node = (λ x h. h, λ x h. h)
  handle_message-Remembers ws (hello (some height)) node = (λ x h. h, λ x h. h)
  handle_message-Remembers ws get_chain node = (λ x h. h, λ x h. h)
  handle_message-Remembers ws (chain none) node =
      mark-Remembers [] node (replace_chain c [] node.ledger)
  handle_message-Remembers ws (chain (some snaps)) node =
      mark-Remembers snaps node (replace_chain c snaps node.ledger)
  handle_message-Remembers ws (new_block none) node = (λ x h. h, λ x h. h)
  handle_message-Remembers ws (new_block (some s)) node = (on_new_block-Remembers ws s node).0
  handle_message-Remembers ws (new_transaction none) node = (λ x h. h, λ x h. h)
  handle_message-Remembers ws (new_transaction (some t)) node =
      (on_new_transaction-Remembers ws t node).0
  handle_message-Remembers ws get_peers node = (λ x h. h, λ x h. h)
  handle_message-Remembers ws (peers none) node = (λ x h. h, λ x h. h)
  handle_message-Remembers ws (peers (some urls)) node = (λ x h. h, λ x h. h)

  -- The node after messages, the first one first.
  abbrev pub after_messages : List (ℕ × Message) → Node → Node
  after_messages [] node = node
  after_messages (m ∷ ms) node = after_messages ms (handle_message is_open c rows m.0 m.1 node).0

  after_messages-Remembers :
      (ms : List (ℕ × Message)) (node : Node) → Remembers node (after_messages ms node)
  after_messages-Remembers [] node = (λ x h. h, λ x h. h)
  after_messages-Remembers (m ∷ ms) node =
      let (blocks, txs) = handle_message-Remembers m.0 m.1 node in
      let (blocks', txs') =
        after_messages-Remembers ms (handle_message is_open c rows m.0 m.1 node).0 in
      (λ x h. blocks' x (blocks x h), λ x h. txs' x (txs x h))

  -- A block or a transaction that was announced to a node is handled once: whatever messages come in between,
  -- a later announcement of a block with its hash, or of a transaction with its id, from any socket, changes
  -- nothing and is sent on to nobody. So every node sends an announcement on once at most.
  pub announced_once :
      (node : Node) (from again : ℕ) (between : List (ℕ × Message))
      → ((s s' : BlockSnapshot)
          → s'.hash ≡ s.hash
          → let later = after_messages ((from, new_block (some s)) ∷ between) node in
            ◌≡◌ {A = Node × Sent}
              (handle_message is_open c rows again (new_block (some s')) later)
              (later, []))
        × ((t t' : Transaction)
            → t'.id ≡ t.id
            → let later = after_messages ((from, new_transaction (some t)) ∷ between) node in
              ◌≡◌ {A = Node × Sent}
                (handle_message is_open c rows again (new_transaction (some t')) later)
                (later, []))
  unfolding handle_message
  announced_once node from again between = (
    λ s s' same.
        let first = (on_new_block is_open c rows from s node).0 in
        let known : has s'.hash (after_messages between first).seen_blocks ≡ true = rw same (
          (after_messages-Remembers between first).0 s.hash
            (on_new_block-Remembers from s node).1) in
        rw known,
    λ t t' same.
        let first = (on_new_transaction is_open c rows from t node).0 in
        let known : has t'.id (after_messages between first).seen_txs ≡ true = rw same (
          (after_messages-Remembers between first).1 t.id
            (on_new_transaction-Remembers from t node).1) in
        rw known,
  )

  -- A block that a node mines reaches a peer with the same latest block that has not seen it: the peer takes it,
  -- so that both have the same latest block again, sends it to each of its open sockets but the one it came
  -- from, and sends nothing else.
  pub mined_block_spreads :
      (config : ChainConfig) (fuel : ℕ) (id miner : Text) (now now' : ℕ)
      (mine_chain mine_chain' : Chain) (peer : Node) (from : ℕ)
      → mine_pending c config fuel id miner now now' mine_chain ≡ some (ok mine_chain')
      → get_latest_block peer.ledger ≡ get_latest_block mine_chain
      → ((s : BlockSnapshot)
          → mine_chain'.events ≡ block_mined s ∷ mine_chain.events
          → has s.hash peer.seen_blocks ≡ false)
      → (s : BlockSnapshot) × (mine_chain'.events ≡ block_mined s ∷ mine_chain.events)
        × (let out = handle_message is_open c rows from (new_block (some s)) peer in
            (get_latest_block out.0.ledger ≡ get_latest_block mine_chain')
            × ((ws : ℕ)
                → Memᴰ ws peer.sockets
                → is_open ws ≡ true
                → ws ≢ from
                → Memᴰ (ws, new_block (some s)) out.1)
            × All
                (λ (m : ℕ × Message).
                  (m.1 ≡ new_block (some s)) × (m.0 ≢ from) × (is_open m.0 ≡ true))
                out.1)
  unfolding handle_message
  mined_block_spreads config fuel id miner now now' mine_chain mine_chain' peer from done same_tip
        unseen =
      let (s, announced, ledger', taken, tip) =
        mine_pending-append_external_block c config fuel id miner now now' mine_chain mine_chain'
          peer.ledger done same_tip in
      let marked : Node = record peer { seen_blocks = peer.seen_blocks ++ s.hash ∷ [] } in
      (
        s,
        announced,
        rw (unseen s announced, taken)
            (
              tip,
              broadcast-reaches is_open (new_block (some s)) from marked,
              broadcast_only is_open (new_block (some s)) from marked,
            ),
      )
