-- ===== src/Gossip.antt =====
-- p2p/p2p.service.ts: the messages between nodes, with the sets of what was seen. Sockets are numbers; a handler
-- gives the node after it and what it sends, to which socket.
pub mod Broadcast
pub mod Seen
use zentto_web.Prelude.{
  ℕ, Bool, true, false, not, ◌&&◌, ◌||◌, Option, none, some, List, [], ◌∷◌, ◌++◌, map, ltb, ◌==◌,
  if◌then◌else◌, filter,
}
use zentto_web.Prelude.Texts.{text_eq}
use zentto_web.Money.{Text}
use zentto_web.Errors.{Error, Result, ok, err}
use zentto_web.Blockchain.{Crypto, Transaction}
use zentto_web.Blockchain.Chain.{TransactionEntity, BlockSnapshot, Chain, get_height}
use zentto_web.Blockchain.Network.{
  AppendStatus, accepted, ignored, mismatch, rejected, ReplaceStatus, replaced, unchanged, refused,
  get_chain_snapshot, append_external_block, replace_chain, add_external_transaction,
}

-- P2pMessage: its type, with the field that the handler of this type reads.
pub data Message : Type 0 where
  hello : Option ℕ → Message
  get_chain : Message
  chain : Option (List BlockSnapshot) → Message
  new_block : Option BlockSnapshot → Message
  new_transaction : Option Transaction → Message
  get_peers : Message
  peers : Option (List Text) → Message

pub record Node : Type 0 where
  pub ledger : Chain
  pub sockets : List ℕ
  pub known_peers : List Text
  pub seen_blocks : List Text
  pub seen_txs : List Text

abbrev pub Sent : Type 0
Sent = List (ℕ × Message)

-- `has` and `add` of a Set of texts.
abbrev pub has : Text → List Text → Bool
has x [] = false
has x (y ∷ ys) = text_eq y x || has x ys

abbrev pub add : Text → List Text → List Text
add x xs = if has x xs then xs else xs ++ x ∷ []

abbrev pub add_all : List Text → List Text → List Text
add_all [] xs = xs
add_all (y ∷ ys) xs = add_all ys (add y xs)

abbrev hashes : List BlockSnapshot → List Text
hashes [] = []
hashes (s ∷ snaps) = s.hash ∷ hashes snaps

-- `readyState === OPEN` of the sockets is a parameter.
module _ (is_open : ℕ → Bool) where
  abbrev pub send : ℕ → Message → Sent
  send ws msg = if is_open ws then (ws, msg) ∷ [] else []

  -- broadcast, to all sockets but one.
  abbrev pub broadcast : Message → Option ℕ → Node → Sent
  broadcast msg except node =
      map (λ (ws : ℕ). (ws, msg))
        (filter (λ (ws : ℕ). not (elim except [ none ↦ false | some e ↦ ws == e ]) && is_open ws)
          node.sockets)

  module _ (c : Crypto) (rows : List TransactionEntity → List TransactionEntity) where
    -- onHello
    abbrev pub on_hello : ℕ → ℕ → Node → Node × Sent
    on_hello ws peer_height node =
        (node, if ltb (get_height node.ledger) peer_height then send ws get_chain else [])

    -- onChain
    abbrev mark_chain : List BlockSnapshot → Node → ReplaceStatus × Chain → Node × Sent
    mark_chain snaps node (replaced, chain') =
        (record node { ledger = chain'; seen_blocks = add_all (hashes snaps) node.seen_blocks }, [])
    mark_chain snaps node (unchanged, chain') = (record node { ledger = chain' }, [])
    mark_chain snaps node (refused, chain') = (record node { ledger = chain' }, [])

    abbrev pub on_chain : List BlockSnapshot → Node → Node × Sent
    on_chain snaps node = mark_chain snaps node (replace_chain c snaps node.ledger)

    -- onNewBlock, after the hash was marked as seen.
    abbrev pub spread_block : ℕ → BlockSnapshot → Node → Result (AppendStatus × Chain) → Node × Sent
    spread_block from s node (err e) = (node, [])
    spread_block from s node (ok (accepted, chain')) =
        (record node { ledger = chain' }, broadcast (new_block (some s)) (some from) node)
    spread_block from s node (ok (mismatch, chain')) =
        (record node { ledger = chain' }, send from get_chain)
    spread_block from s node (ok (ignored, chain')) = (record node { ledger = chain' }, [])
    spread_block from s node (ok (rejected, chain')) = (record node { ledger = chain' }, [])

    abbrev pub on_new_block : ℕ → BlockSnapshot → Node → Node × Sent
    on_new_block from s node =
        if has s.hash node.seen_blocks
        then (node, [])
        else spread_block from s (record node { seen_blocks = add s.hash node.seen_blocks })
            (append_external_block c s node.ledger)

    -- onNewTransaction
    abbrev pub spread_transaction : ℕ → Transaction → Node → AppendStatus × Chain → Node × Sent
    spread_transaction from t node (accepted, chain') =
        (record node { ledger = chain' }, broadcast (new_transaction (some t)) (some from) node)
    spread_transaction from t node (mismatch, chain') = (record node { ledger = chain' }, [])
    spread_transaction from t node (ignored, chain') = (record node { ledger = chain' }, [])
    spread_transaction from t node (rejected, chain') = (record node { ledger = chain' }, [])

    abbrev pub on_new_transaction : ℕ → Transaction → Node → Node × Sent
    on_new_transaction from t node =
        if has t.id node.seen_txs
        then (node, [])
        else spread_transaction from t (record node { seen_txs = add t.id node.seen_txs })
            (add_external_transaction c t node.ledger)

    -- handleMessage; an error of a handler is only logged. Connecting to the peers that are named is left out.
    unfoldable pub handle_message : ℕ → Message → Node → Node × Sent
    handle_message ws (hello none) node = on_hello ws 0 node
    handle_message ws (hello (some height)) node = on_hello ws height node
    handle_message ws get_chain node =
        (node, send ws (chain (some (get_chain_snapshot rows node.ledger))))
    handle_message ws (chain none) node = on_chain [] node
    handle_message ws (chain (some snaps)) node = on_chain snaps node
    handle_message ws (new_block none) node = (node, [])
    handle_message ws (new_block (some s)) node = on_new_block ws s node
    handle_message ws (new_transaction none) node = (node, [])
    handle_message ws (new_transaction (some t)) node = on_new_transaction ws t node
    handle_message ws get_peers node = (node, send ws (peers (some node.known_peers)))
    handle_message ws (peers none) node = (node, [])
    handle_message ws (peers (some urls)) node =
        (record node { known_peers = add_all urls node.known_peers }, [])

  -- onLocalBlockMined and onLocalTxAdded
  abbrev pub on_local_block_mined : BlockSnapshot → Node → Node × Sent
  on_local_block_mined s node = (
    record node { seen_blocks = add s.hash node.seen_blocks },
    broadcast (new_block (some s)) none node,
  )

  abbrev pub on_local_tx_added : Transaction → Node → Node × Sent
  on_local_tx_added t node = (
    record node { seen_txs = add t.id node.seen_txs },
    broadcast (new_transaction (some t)) none node,
  )
