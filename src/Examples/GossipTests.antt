-- ===== src/Examples/GossipTests.antt =====
-- p2p/p2p.service.ts: two nodes.
use mathlib.Core.List.{Memᴰ}
use zentto_web.Prelude.{ℕ, All, ◌≢◌, ◌≡◌, refl, true, some, [], ◌∷◌}
use zentto_web.Prelude.Int.{◌+ℤ◌, ◌-ℤ◌}
use zentto_web.Prelude.Texts.{text_eq}
use zentto_web.Blockchain.{
  merkle_root, levels, next_level, transaction_hash, is_valid, block_hash, leading_zeros, mine,
  Transaction,
}
use zentto_web.Blockchain.Chain.{BlockSnapshot, insert, order_by, get_latest_block, block_mined}
use zentto_web.Blockchain
use zentto_web.Gossip.{new_block, new_transaction, hello, Message, Node, Sent, handle_message}
use zentto_web.Gossip.Seen.{after_messages, announced_once, mined_block_spreads}
use zentto_web.Examples.ChainData.{
  as_written, crypto, config, first_chain, paid_chain, mined_chain, coinbase_id, bob,
}

abbrev peer : Node
peer = record {
  ledger = first_chain;
  sockets = 1 ∷ 2 ∷ [];
  known_peers = [];
  seen_blocks = [];
  seen_txs = [];
}

announced_once_example :
    ((s s' : BlockSnapshot)
      → s'.hash ≡ s.hash
      → let later =
          after_messages
            (λ ws. true)
            crypto
            as_written
            ((1, new_block (some s)) ∷ (2, hello (some 5)) ∷ [])
            peer in
        ◌≡◌ {A = Node × Sent}
          (handle_message (λ ws. true) crypto as_written 2 (new_block (some s')) later)
          (later, []))
    × ((t t' : Transaction)
        → t'.id ≡ t.id
        → let later =
            after_messages
              (λ ws. true)
              crypto
              as_written
              ((1, new_transaction (some t)) ∷ (2, hello (some 5)) ∷ [])
              peer in
          ◌≡◌ {A = Node × Sent}
            (handle_message (λ ws. true) crypto as_written 2 (new_transaction (some t')) later)
            (later, []))
announced_once_example =
    announced_once (λ ws. true) crypto as_written peer 1 2 ((2, hello (some 5)) ∷ [])

mined_block_spreads_example :
    (s : BlockSnapshot) × (mined_chain.events ≡ block_mined s ∷ paid_chain.events)
    × (let out = handle_message (λ ws. true) crypto as_written 1 (new_block (some s)) peer in
        (get_latest_block out.0.ledger ≡ get_latest_block mined_chain)
        × ((ws : ℕ)
            → Memᴰ ws (1 ∷ 2 ∷ [])
            → true ≡ true
            → ws ≢ 1
            → Memᴰ (ws, new_block (some s)) out.1)
        × All (λ (m : ℕ × Message). (m.1 ≡ new_block (some s)) × (m.0 ≢ 1) × (true ≡ true)) out.1)
unfolding merkle_root levels next_level transaction_hash is_valid block_hash leading_zeros
    zentto_web.Blockchain.new_block mine text_eq insert order_by ◌-ℤ◌ ◌+ℤ◌
mined_block_spreads_example =
    mined_block_spreads (λ ws. true) crypto as_written config 1 coinbase_id bob 8 9 paid_chain
      mined_chain peer 1 refl refl (λ s e. refl)
