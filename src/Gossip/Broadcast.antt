-- ===== src/Gossip/Broadcast.antt =====
-- p2p/p2p.service.ts, broadcast: to whom a message goes.
use mathlib.Core.List.{Memᴰ}
use zentto_web.Prelude.{
  ℕ, ◌≡◌, ◌≢◌, refl, sym, ap, Bool, true, false, not, ◌&&◌, some, List, [], ◌∷◌, map, arith, filter,
  ◌==◌, ne→==, ==_refl, Bool-cases, inl, inr, All,
}
use zentto_web.Gossip.{Message, Node, Sent, broadcast}

module _ (is_open : ℕ → Bool) (msg : Message) (from : ℕ) where
  abbrev chosen : ℕ → Bool
  chosen ws = not (ws == from) && is_open ws

  abbrev sent_to : List ℕ → Sent
  sent_to sockets = map (λ (ws : ℕ). (ws, msg)) (filter chosen sockets)

  reaches :
      (ws : ℕ) (sockets : List ℕ)
      → Memᴰ ws sockets
      → is_open ws ≡ true
      → ws ≢ from
      → Memᴰ (ws, msg) (sent_to sockets)
  reaches ws [] m up other = elim m [ ]
  reaches ws (x ∷ xs) (Memᴰ.head e) up other =
      let hit : chosen x ≡ true = rw (sym e) (rw (ne→== ws from other, up)) in
      rw hit (Memᴰ.head (ap (λ (w : ℕ). (w, msg)) e))
  reaches ws (x ∷ xs) (Memᴰ.tail m) up other = elim (Bool-cases (chosen x)) [
    | inl hit ↦ rw hit (Memᴰ.tail (reaches ws xs m up other))
    | inr miss ↦ rw miss (reaches ws xs m up other)
  ]

  only :
      (sockets : List ℕ)
      → All
          (λ (s : ℕ × Message). (s.1 ≡ msg) × (s.0 ≢ from) × (is_open s.0 ≡ true))
          (sent_to sockets)
  only [] = tt
  only (x ∷ xs) = elim (Bool-cases (chosen x)) [
    | inl hit ↦ rw hit ((refl, apart x hit, up x hit), only xs)
    | inr miss ↦ rw miss (only xs)
  ]
    where
      up : (x : ℕ) → chosen x ≡ true → is_open x ≡ true
      up x h = ground arith

      clash : false ≡ true → ⊥
      clash h = cc

      apart : (x : ℕ) → chosen x ≡ true → x ≢ from
      apart x h e = clash (rw (e, ==_refl from) at h)

  -- Every open socket but one gets the message.
  pub broadcast-reaches :
      (node : Node) (ws : ℕ)
      → Memᴰ ws node.sockets
      → is_open ws ≡ true
      → ws ≢ from
      → Memᴰ (ws, msg) (broadcast is_open msg (some from) node)
  broadcast-reaches node ws m up other = reaches ws node.sockets m up other

  -- What is sent is that message, to open sockets but that one.
  pub broadcast_only :
      (node : Node)
      → All
          (λ (s : ℕ × Message). (s.1 ≡ msg) × (s.0 ≢ from) × (is_open s.0 ≡ true))
          (broadcast is_open msg (some from) node)
  broadcast_only node = only node.sockets
