-- ===== src/Examples/IndexerTests.antt =====
-- indexer/deposit-indexer.service.ts: one network with one token, and one deposit.
use zentto_web.Prelude.{ℕ, ◌≡◌, refl, false, none, List, [], ◌∷◌, if◌then◌else◌}
use zentto_web.Prelude.Int.{pos, ◌+ℤ◌, ◌-ℤ◌, ◌*ℤ◌, div_trunc}
use zentto_web.Money.Amount.{Amount, exact, is_positive}
use zentto_web.Errors.{ok}
use zentto_web.Database.{Database, empty_database, DepositAddress, ChainDeposit}
use zentto_web.Action.{returned, after}
use zentto_web.Fees.{Rates, FeeQuote, received, percent, clamp_fee, quote_deposit}
use zentto_web.Ledger.{check_legs, post_journal, balance_of}
use zentto_web.Payments.{find_payment, insert_payment}
use zentto_web.Indexer.{
  Transfer, EvmNetwork, Clients, find_deposit, insert_deposit, record_credit, credit_transaction,
  credit_deposit, alone,
}
use zentto_web.Indexer.Credit.{custody, credited, treasury}
use zentto_web.Indexer.Once.{credit_deposit_once, credit_deposit-balance_of}
use zentto_web.Examples.Data.{env, usdt}

abbrev deposit : Transfer
deposit = record { tx_hash = 501; log_index = 0; to = 9; value = 4000; block_number = 12 }

abbrev after_deposit : Database
after_deposit =
    after (credit_deposit alone env.rates 3 44 12 deposit (exact (pos 4000)) usdt empty_database)

credit_deposit_once_example :
    (find_deposit 3 501 0 [] ≡ none)
    × ((d : ChainDeposit) × (after_deposit.chain_deposits ≡ d ∷ []))
    × ((others' : Database → Database) (rates' : Rates) (token' user' : ℕ) (t' : Transfer)
          (amount' : Amount) (asset' : ℕ)
        → t'.tx_hash ≡ 501
        → t'.log_index ≡ 0
        → credit_deposit others' rates' 3 token' user' t' amount' asset' after_deposit
          ≡ returned false after_deposit)
unfolding credit_deposit credit_transaction record_credit insert_deposit insert_payment find_payment
    find_deposit quote_deposit percent post_journal clamp_fee div_trunc ◌*ℤ◌ check_legs ◌-ℤ◌ ◌+ℤ◌
credit_deposit_once_example =
    credit_deposit_once env.rates 3 44 12 deposit (exact (pos 4000)) usdt alone empty_database
      after_deposit refl

abbrev deposit_quote : FeeQuote
deposit_quote = received (exact (pos 4000)) (exact (pos 40))

credit_deposit-balance_of_example :
    (quote : FeeQuote) × (quote_deposit env.rates (exact (pos 4000)) ≡ ok quote)
    × (balance_of (credited 12 usdt empty_database).id after_deposit
        ≡ balance_of (credited 12 usdt empty_database).id empty_database +ℤ quote.net.stored)
    × (balance_of (custody 12 usdt empty_database).id after_deposit
        ≡ balance_of (custody 12 usdt empty_database).id empty_database +ℤ (pos 0 -ℤ pos 4000))
    × (balance_of (treasury 12 usdt empty_database).id after_deposit
        ≡ balance_of (treasury 12 usdt empty_database).id empty_database
          +ℤ (if is_positive quote.platform_fee then quote.platform_fee.stored else pos 0))
unfolding credit_deposit credit_transaction record_credit insert_deposit insert_payment find_payment
    find_deposit quote_deposit percent post_journal clamp_fee div_trunc ◌*ℤ◌ check_legs ◌-ℤ◌ ◌+ℤ◌
credit_deposit-balance_of_example =
    credit_deposit-balance_of env.rates 3 44 12 deposit (exact (pos 4000)) usdt alone empty_database
      after_deposit tt refl

-- A node that is at block 30 and reports the deposit.
abbrev clients : Clients
clients = record {
  format_units = λ value decimals. exact (pos value);
  lower = λ a. a;
  current_block = λ network. ok 30;
  transfers_to = λ token addresses from to network. ok (deposit ∷ []);
  token_decimals = λ token network. ok 6;
  tron_enabled = false;
  tron_token = 0;
  tron_transfers = λ a since. ok [];
  solana_enabled = false;
  solana_transfers = λ a. ok [];
  now = 0;
}

abbrev network : EvmNetwork
network = record {
  key = 3;
  confirmations = 6;
  tokens = record { address = 44; asset = usdt } ∷ [];
  usdc_address = 44;
  asset = usdt;
}

abbrev watched : List DepositAddress
watched = record { id = 70; user_id = 12; network = 1; address = 9; derivation_index = 0 } ∷ []
