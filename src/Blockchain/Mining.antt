-- ===== src/Blockchain/Mining.antt =====
-- Proof of work: the search for a nonce.
use zentto_web.Prelude.{
  List, ℕ, zero, suc, ◌+◌, ◌≤◌, ◌<◌, ◌≡◌, sym, Bool, true, false, some, arith, Bool-cases, inl, inr,
  some_inj, some_not_none,
}
use zentto_web.Prelude.Texts.{text_eq_refl}
use zentto_web.Money.{Text}
use zentto_web.Blockchain.{
  Crypto, Transaction, Block, block_hash, meets_target, with_nonce, mine, has_valid_proof,
  new_block,
}

-- Blocks whose hash is their own.
abbrev pub IsHashed : Crypto → Block → Type 0
IsHashed c b = b.hash ≡ block_hash c b

module _ (c : Crypto) (b : Block) where
  abbrev meets_at : ℕ → Bool
  meets_at n = meets_target (with_nonce c n b)

  -- The first nonce from `start` on that meets the target is found, when one does within the fuel.
  mine_first :
      (n fuel start : ℕ)
      → n < fuel
      → meets_at (start + n) ≡ true
      → (m : ℕ) × (m ≤ n)
        × (mine c fuel (with_nonce c start b) ≡ some (with_nonce c (start + m) b))
        × (meets_at (start + m) ≡ true)
        × ((i : ℕ) → i < m → meets_at (start + i) ≡ false)
  unfolding mine block_hash
  mine_first n zero start lt met = absurd (omega arith)
  mine_first zero (suc fuel) start lt met =
      let e : start + 0 ≡ start = omega arith in
      let now : meets_at start ≡ true = rw e at met in
      (0, omega arith, rw (e, now), rw e now, λ i below. absurd (omega (arith, below)))
  mine_first (suc n) (suc fuel) start lt met = elim (Bool-cases (meets_at start)) [
    | inl now ↦
        let e : start + 0 ≡ start = omega arith in
        (0, omega arith, rw (e, now), rw e now, λ i below. absurd (omega (arith, below)))
    | inr later ↦
        let shift : start + suc n ≡ suc start + n = omega arith in
        let (m, le, found, good, first) =
          mine_first n fuel (suc start) (omega arith) (rw shift at met) in
        let e : start + suc m ≡ suc start + m = omega arith in
        (suc m, omega arith, rw (e, later) found, rw e good, earlier m first later)
  ]
    where
      earlier :
          (m : ℕ)
          → ((i : ℕ) → i < m → meets_at (suc start + i) ≡ false)
          → meets_at start ≡ false
          → (i : ℕ) → i < suc m
          → meets_at (start + i) ≡ false
      earlier m first later zero below = let e : start + 0 ≡ start = omega arith in rw e later
      earlier m first later (suc i) below =
          let e : start + suc i ≡ suc start + i = omega arith in
          rw e (first i (omega (arith, below)))

-- The search for a nonce ends with a block that has a valid proof, whose nonce is the first that meets
-- the target and whose index, transactions, links and difficulty are those of the block that was
-- constructed, as soon as some nonce meets the target and the fuel is above it.
pub mine_ends :
    (c : Crypto) (index timestamp : ℕ) (transactions : List Transaction) (previous_hash : Text)
    (difficulty n fuel : ℕ)
    → n < fuel
    → meets_target
        (with_nonce c n (new_block c index timestamp transactions previous_hash difficulty))
      ≡ true
    → let b = new_block c index timestamp transactions previous_hash difficulty in
      (m : ℕ) × (m ≤ n)
      × (mine c fuel b ≡ some (with_nonce c m b))
      × (has_valid_proof c (with_nonce c m b) ≡ true)
      × ((i : ℕ) → i < m → meets_target (with_nonce c i b) ≡ false)
unfolding new_block block_hash
mine_ends c index timestamp transactions previous_hash difficulty n fuel lt met =
    let b = new_block c index timestamp transactions previous_hash difficulty in
    let zero_plus : 0 + n ≡ n = omega arith in
    let (m, le, found, good, first) = mine_first c b n fuel 0 lt (rw zero_plus met) in
    let e : 0 + m ≡ m = omega arith in
    (
      m,
      le,
      rw e at found,
      rw (rw e at good) (text_eq_refl _),
      λ i below. let e' : 0 + i ≡ i = omega arith in rw e' at (first i below),
    )

-- What the search returns is its block with another nonce, and meets the target.
pub mine_found :
    (c : Crypto) (b : Block) (fuel start : ℕ) (b' : Block)
    → mine c fuel (with_nonce c start b) ≡ some b'
    → (m : ℕ) × (b' ≡ with_nonce c m b) × (meets_target (with_nonce c m b) ≡ true)
unfolding mine block_hash
mine_found c b zero start b' h = absurd (some_not_none (sym h))
mine_found c b (suc fuel) start b' h = elim (Bool-cases (meets_target (with_nonce c start b))) [
  | inl now ↦ (start, sym (some_inj (rw now at h)), now)
  | inr later ↦ mine_found c b fuel (suc start) b' (rw later at h)
]
