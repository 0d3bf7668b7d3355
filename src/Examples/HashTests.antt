-- ===== src/Examples/HashTests.antt =====
-- blockchain/domain/ and common/crypto.util.ts: Merkle roots and nonces.
use zentto_web.Prelude.{
  ℕ, ◌≤◌, ◌<◌, ◌≡◌, ◌⊎◌, refl, true, false, some, [], ◌∷◌, replicate, length, arith,
}
use zentto_web.Prelude.Int.{pos}
use zentto_web.Money.{Text}
use zentto_web.Blockchain.{
  Crypto, next_level, levels, merkle_root, block_hash, leading_zeros, meets_target, with_nonce,
  new_block, mine, has_valid_proof,
}
use zentto_web.Blockchain.Merkle.{Collision, merkle_root_binds}
use zentto_web.Blockchain.Mining.{mine_ends}

-- A hash that counts the letters.
abbrev counting : Crypto
counting = record {
  sha256 = λ s. length s ∷ replicate 63 b'0';
  verify_signature = λ a h s. true;
  whole = pos;
  round = λ z. z;
  number_text = λ z. [];
}

-- A hash that starts with zeros.
abbrev zeros : Crypto
zeros = record {
  sha256 = λ s. replicate 64 b'0';
  verify_signature = λ a h s. true;
  whole = pos;
  round = λ z. z;
  number_text = λ z. [];
}

abbrev one : Text
one = replicate 64 b'1'

abbrev two : Text
two = replicate 64 b'2'

abbrev three : Text
three = replicate 64 b'3'

merkle_root_binds_example : (one ∷ two ∷ [] ≡ one ∷ three ∷ []) ⊎ Collision counting
unfolding merkle_root levels next_level
merkle_root_binds_example =
    merkle_root_binds counting (λ s. refl) (one ∷ two ∷ []) (one ∷ three ∷ []) refl
      (refl, (refl, tt)) (refl, (refl, tt)) refl

mine_ends_example :
    let b = new_block zeros 1 5 [] one 2 in
    (m : ℕ) × (m ≤ 0)
    × (mine zeros 1 b ≡ some (with_nonce zeros m b))
    × (has_valid_proof zeros (with_nonce zeros m b) ≡ true)
    × ((i : ℕ) → i < m → meets_target (with_nonce zeros i b) ≡ false)
unfolding new_block block_hash leading_zeros
mine_ends_example = mine_ends zeros 1 5 [] one 2 0 1 (omega arith) refl
