-- ===== src/Blockchain.antt =====
-- common/crypto.util.ts and blockchain/domain/: hashes, the Merkle root, transactions and blocks.
pub mod Merkle
pub mod Mining
pub mod Chain
pub mod Node
pub mod Network
pub mod Rows
pub mod Mined
pub mod Agreement
pub mod Sync
pub mod Imported
pub mod Replace
pub mod Links
pub mod Append
pub mod Connected
pub mod Validation
use zentto_web.Prelude.{
  ℕ, zero, suc, ◌+◌, Bool, true, false, not, ◌&&◌, ◌||◌, Option, none, some, List, [], ◌∷◌, ◌++◌,
  map, leb, ltb, ◌==◌, if◌then◌else◌, length, all,
}
use zentto_web.Prelude.Int.{ℤ, pos, negsuc, ltb_ℤ, leb_ℤ}
use zentto_web.Prelude.Texts.{text_eq}
use zentto_web.Money.{Text, digits, is_empty}

-- What the chain takes from `crypto`, from `elliptic` and from the arithmetic of the language. Amounts and fees
-- are finite doubles, which are multiples of the least one: an integer is such a multiple, `whole` the one
-- of a whole number, `round` what a sum is rounded to, and `number_text` what `${n}` prints.
pub record Crypto : Type 0 where
  pub sha256 : Text → Text
  pub verify_signature : Text → Text → Text → Bool  -- address, hash, signature
  pub whole : ℕ → ℤ
  pub round : ℤ → ℤ
  pub number_text : ℤ → Text

-- The loop over one level of `merkleRoot`: each pair is hashed together, a last one with itself.
unfoldable pub next_level : Crypto → List Text → List Text
next_level c [] = []
next_level c (x ∷ []) = c.sha256 (x ++ x) ∷ []
next_level c (x ∷ y ∷ xs) = c.sha256 (x ++ y) ∷ next_level c xs

-- `while (level.length > 1)`, with fuel.
unfoldable pub levels : Crypto → ℕ → List Text → List Text
levels c zero level = level
levels c (suc fuel) level =
    let rest = levels c fuel (next_level c level) in if ltb 1 (length level) then rest else level

abbrev pub first_hash : Text → List Text → Text
first_hash d [] = d
first_hash d (x ∷ xs) = x

-- merkleRoot
unfoldable pub merkle_root : Crypto → List Text → Text
merkle_root c hashes = first_hash (c.sha256 []) (levels c (length hashes) hashes)

-- Times are whole numbers of milliseconds.
pub record Transaction : Type 0 where
  pub id : Text
  pub from_address : Option Text
  pub to_address : Text
  pub amount : ℤ
  pub fee : ℤ
  pub timestamp : ℕ
  pub signature : Option Text

-- `${this.fromAddress ?? 'COINBASE'}`
abbrev pub sender_text : Option Text → Text
sender_text none = b'C' ∷ b'O' ∷ b'I' ∷ b'N' ∷ b'B' ∷ b'A' ∷ b'S' ∷ b'E' ∷ []
sender_text (some a) = a

abbrev pub bar : Text
bar = b'|' ∷ []

-- Transaction.calculateHash
unfoldable pub transaction_hash : Crypto → Transaction → Text
transaction_hash c t = c.sha256 (
    sender_text t.from_address
    ++ (bar
        ++ (t.to_address
            ++ (bar
                ++ (c.number_text t.amount
                    ++ (bar ++ (c.number_text t.fee ++ (bar ++ digits t.timestamp))))))))

-- Transaction.isValid
unfoldable pub is_valid : Crypto → Transaction → Bool
is_valid c t = elim t.from_address [
  | none ↦ true
  | some from ↦ elim t.signature [
    | none ↦ false
    | some signature ↦
        if is_empty signature
        then false
        else if leb_ℤ t.amount (pos 0) || ltb_ℤ t.fee (pos 0)
        then false
        else if text_eq from t.to_address
        then false
        else c.verify_signature from (transaction_hash c t) signature
  ]
]

pub record Block : Type 0 where
  pub index : ℕ
  pub timestamp : ℕ
  pub transactions : List Transaction
  pub previous_hash : Text
  pub difficulty : ℕ
  pub nonce : ℕ
  pub merkle : Text
  pub hash : Text

-- Block.calculateHash
unfoldable pub block_hash : Crypto → Block → Text
block_hash c b = c.sha256 (
    digits b.index
    ++ (bar
        ++ (b.previous_hash
            ++ (bar
                ++ (digits b.timestamp
                    ++ (bar
                        ++ (b.merkle
                            ++ (bar ++ (digits b.nonce ++ (bar ++ digits b.difficulty))))))))))

-- `hash.startsWith('0'.repeat(difficulty))`
unfoldable pub leading_zeros : ℕ → Text → Bool
leading_zeros zero s = true
leading_zeros (suc n) [] = false
leading_zeros (suc n) (c ∷ s) = c == b'0' && leading_zeros n s

-- meetsTarget
abbrev pub meets_target : Block → Bool
meets_target b = leading_zeros b.difficulty b.hash

-- `this.hash = this.calculateHash()`
abbrev pub with_hash : Crypto → Block → Block
with_hash c b = record b { hash = block_hash c b }

abbrev pub with_nonce : Crypto → ℕ → Block → Block
with_nonce c n b = with_hash c (record b { nonce = n })

-- The constructor
unfoldable pub new_block : Crypto → ℕ → ℕ → List Transaction → Text → ℕ → Block
new_block c index timestamp transactions previous_hash difficulty = with_hash c (record {
  index = index;
  timestamp = timestamp;
  transactions = transactions;
  previous_hash = previous_hash;
  difficulty = difficulty;
  nonce = 0;
  merkle = merkle_root c (map (transaction_hash c) transactions);
  hash = [];
})

-- mine, with fuel: `none` where it runs out.
unfoldable pub mine : Crypto → ℕ → Block → Option Block
mine c zero b = none
mine c (suc fuel) b =
    let rest = mine c fuel (with_nonce c (suc b.nonce) b) in if meets_target b then some b else rest

-- hasValidTransactions
abbrev pub has_valid_transactions : Crypto → Block → Bool
has_valid_transactions c b = all (is_valid c) b.transactions

-- hasValidProof
abbrev pub has_valid_proof : Crypto → Block → Bool
has_valid_proof c b = meets_target b && text_eq b.hash (block_hash c b)
