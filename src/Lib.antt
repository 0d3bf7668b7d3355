-- ===== src/Lib.antt =====
-- The core of the zentto-web backend (NestJS and TypeORM): exact decimal amounts, a double-entry ledger,
-- fees, idempotent transfers, withdrawals to a chain, deposits from the chains, the escrow of the P2P
-- market, recharges, accounts and identities, and the backend's own blockchain with its exchange between
-- nodes.
--
-- The parts and their files (paths from the repository's root):
--   Money         src/common/money.util.ts: decimal texts as lists of bytes (toBase, fromBase, addStr,
--                 subStr, cmpStr, isPositive); Money/Amount: an amount as the services pass it on.
--   Fees          src/fees/fee.service.ts: percent and the three quotes.
--   Database      src/database/entities/: the tables, as lists in one record, newest row first.
--   Action        a service call: a function from the database to a result or an error, with the database
--                 that it leaves; `transaction` is dataSource.transaction, which rolls back on a throw.
--   Environment   the functions of other packages (viem, otplib) and the configuration, as parameters.
--   Ledger        src/ledger/ledger.service.ts: accounts, balances, journals, holds.
--   Auth          src/auth/auth.service.ts: getById, verifyTotp and assertStepUp; Auth/Accounts: the
--                 rest of it; Auth/AccountTokens: src/auth/account-token.service.ts.
--   Payments      src/payments/payments.service.ts: getBalances, getPayment, credit, transfer and
--                 runIdempotent.
--   Withdrawals   src/withdrawals/withdrawals.service.ts: favorites, request, and the worker in
--                 Withdrawals/Worker (processPending, reconcile, complete, failAndRefund, runCycle).
--   Market        src/marketplace/p2p-market.service.ts: offers; Market/Trades: trades and sweepTimeouts.
--   Recharge      src/recharge/recharge.service.ts: recharge requests.
--   Indexer       src/indexer/deposit-indexer.service.ts: creditDeposit; Indexer/Scan: scanNetwork, scanTron,
--                 scanSolana, scan and creditWebhookTransfer.
--   Blockchain    src/common/crypto.util.ts (merkleRoot), src/blockchain/domain/block.ts and transaction.ts;
--                 Blockchain/Chain, Node and Network: src/blockchain/blockchain.service.ts (the stored chain
--                 with its balances and submissions; genesis, mining and validateChain; the network).
--   Kyc           Kyc/Service, Documents and Webhooks: src/kyc/kyc.service.ts, with the signature of
--                 src/kyc/providers/didit-webhook.util.ts; Kyc/Mrz: src/kyc/mrz.service.ts; Kyc/Screening:
--                 src/kyc/aml-screening.service.ts.
--   Gossip        src/p2p/p2p.service.ts: the messages between nodes and their handlers.
--   Examples      concrete runs.
--
-- The blockchain has tables of its own, and the ledger does not know of it. Payments, withdrawals, the
-- market, recharges and the indexer call the ledger inside transactions of their own; accounts and
-- identities do not touch it, and a withdrawal reads of the user whether the second factor is on and when
-- the password changed. Ledger/Split has the journal of the services that pay a total to a receiver and
-- the treasury.
--
-- How the code is represented: base units are integers over the native numbers. An amount is the two
-- integers that are ever read from its text, the one that toBase cuts and the one that a numeric(38, 18)
-- column rounds; they agree for all texts of at most eighteen decimals. Texts that are only stored or
-- compared are numbers, but for those of the blockchain and of the passports and names, which are lists of
-- code points. A randomUUID is the number of ids drawn so far. Requests that run between two steps of a
-- call are a function on databases (`others`) where the code reacts to them. Amounts of the blockchain are
-- doubles: an integer counts multiples of the least one, and what a sum is rounded to and how a number is
-- printed are parameters (`Crypto`). The order of rows that are read without ORDER BY is a parameter
-- (`rows`). A code of the second factor is accepted or not at a time, which the environment of a call
-- holds. Loops run over finite lists, but for two: merkleRoot has as much fuel as there are hashes, of
-- which every turn leaves half; and the loop of Block.mine, for which no bound is known, returns nothing
-- when its fuel runs out.
--
-- Not modelled: HTTP controllers, guards and DTO validation, timers, logging, e-mails; the isolation of
-- two transactions that overlap; the chat of a trade and the fetching of the market rate, whose comparison
-- is a parameter of create_order; a save that fails by itself; what viem, TronGrid and the Solana nodes
-- answer; SHA-256, bcrypt, HMACs, JWTs and elliptic signatures; the HTTP clients of the KYC providers, and
-- the body that the second kind of Didit signature covers, printed anew; the WebSocket connections of
-- src/p2p and the queue of src/mining; the other services, which the manifest lists.
pub mod Prelude
pub mod Money
pub mod Errors
pub mod Fees
pub mod Database
pub mod Action
pub mod Ledger
pub mod Environment
pub mod Auth
pub mod Payments
pub mod Withdrawals
pub mod Market
pub mod Recharge
pub mod Blockchain
pub mod Gossip
pub mod Indexer
pub mod Kyc
mod Examples
