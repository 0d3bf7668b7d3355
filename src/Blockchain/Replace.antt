-- ===== src/Blockchain/Replace.antt =====
-- replaceChain and getChainSnapshot are inverse on a chain that is received.
use zentto_web.Prelude.{
  ◌<◌, ◌≡◌, sym, ap, true, List, arith, leb, ◌==◌, Bool-cases, inl, inr, length,
}
use zentto_web.Blockchain.{Crypto}
use zentto_web.Blockchain.Chain.{BlockSnapshot, Chain, get_height}
use zentto_web.Blockchain.Network.{
  ReplaceStatus, replaced, unchanged, refused, validate_chain_snapshots, replaced_chain,
  replace_chain,
}

module _ (c : Crypto) where
  -- What it takes for replaceChain to replace the chain.
  pub replace_chain_done :
      (snaps : List BlockSnapshot) (chain chain' : Chain)
      → replace_chain c snaps chain ≡ (replaced, chain')
      → (get_height chain < length snaps)
        × (validate_chain_snapshots c snaps ≡ true)
        × (chain' ≡ replaced_chain c snaps chain)
  replace_chain_done snaps chain chain' done = elim (Bool-cases (length snaps == 0)) [
    | inl empty ↦ absurd (other (rw empty at done))
    | inr some_blocks ↦ elim (Bool-cases (leb (length snaps) (get_height chain))) [
      | inl short ↦ absurd (other' (rw (some_blocks, short) at done))
      | inr longer ↦ elim (Bool-cases (validate_chain_snapshots c snaps)) [
        | inr bad ↦ absurd (other (rw (some_blocks, longer, bad) at done))
        | inl sound ↦ (
          ground (arith, longer),
          sound,
          sym (ap (λ (p : ReplaceStatus × Chain). p.1) (rw (some_blocks, longer, sound) at done)),
        )
      ]
    ]
  ]
    where
      clash : refused ≡ replaced → ⊥
      clash h = cc

      clash' : unchanged ≡ replaced → ⊥
      clash' h = cc

      other : {k k' : Chain} → ◌≡◌ {A = ReplaceStatus × Chain} (refused, k) (replaced, k') → ⊥
      other h = clash (ap (λ (p : ReplaceStatus × Chain). p.0) h)

      other' : {k k' : Chain} → ◌≡◌ {A = ReplaceStatus × Chain} (unchanged, k) (replaced, k') → ⊥
      other' h = clash' (ap (λ (p : ReplaceStatus × Chain). p.0) h)
