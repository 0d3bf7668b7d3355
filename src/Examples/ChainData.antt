-- ===== src/Examples/ChainData.antt =====
-- Two nodes: a premine, a submission, and a block. The hash is the same for all texts.
use zentto_web.Prelude.{suc, List, true, Option, none, some, [], ◌∷◌, replicate}
use zentto_web.Prelude.Int.{ℤ, pos, negsuc}
use zentto_web.Money.{Text, digits}
use zentto_web.Errors.{Result, ok, err}
use zentto_web.Blockchain.{Crypto}
use zentto_web.Blockchain.Chain.{
  TransactionEntity, ChainConfig, Chain, SubmitTransactionInput, submit_transaction,
}
use zentto_web.Blockchain.Node.{create_genesis_block, mine_pending}
use zentto_web.Blockchain.Connected.{empty_chain}

abbrev number_text : ℤ → Text
number_text (pos n) = digits n
number_text (negsuc n) = b'-' ∷ digits (suc n)

-- A hash that is the same for all texts, signatures that all hold, and sums of small whole numbers, which
-- are not rounded.
abbrev pub crypto : Crypto
crypto = record {
  sha256 = λ s. replicate 64 b'0';
  verify_signature = λ a h s. true;
  whole = pos;
  round = λ z. z;
  number_text = number_text;
}

-- The rows of a query in the order in which they are stored.
abbrev pub as_written : List TransactionEntity → List TransactionEntity
as_written rows = rows

abbrev pub alice : Text
alice = b'a' ∷ []

abbrev pub bob : Text
bob = b'b' ∷ []

abbrev pub config : ChainConfig
config = record { difficulty = 2; mining_reward = pos 50; genesis_premine_address = some alice }

abbrev pub or_empty : Option Chain → Chain
or_empty none = empty_chain
or_empty (some chain) = chain

abbrev pub returned_or : Chain → Result Chain → Chain
returned_or chain (err e) = chain
returned_or chain (ok chain') = chain'

abbrev pub mined_or : Chain → Option (Result Chain) → Chain
mined_or chain none = chain
mined_or chain (some r) = returned_or chain r

abbrev pub first_chain : Chain
first_chain = or_empty (create_genesis_block crypto config 1 empty_chain)

abbrev pub payment : SubmitTransactionInput
payment = record {
  from_address = alice;
  to_address = bob;
  amount = pos 100;
  fee = some (pos 1);
  timestamp = 7;
  signature = b's' ∷ [];
}

abbrev pub payment_id : Text
payment_id = b'p' ∷ []

abbrev pub coinbase_id : Text
coinbase_id = b'c' ∷ []

abbrev pub paid_chain : Chain
paid_chain =
    returned_or first_chain (submit_transaction crypto as_written payment_id payment first_chain)

abbrev pub mined_chain : Chain
mined_chain = mined_or paid_chain (mine_pending crypto config 1 coinbase_id bob 8 9 paid_chain)

abbrev pub mined_first : Chain
mined_first = mined_or first_chain (mine_pending crypto config 1 coinbase_id bob 8 9 first_chain)
