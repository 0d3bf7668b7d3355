-- ===== src/Examples.antt =====
-- Concrete runs of the models: examples of the theorems, and tests of the definitions.
pub mod Data
mod MoneyTests
mod FeeTests
mod KycTests
mod LedgerTests
mod AuthTests
mod PaymentTests
mod WithdrawalTests
mod MarketTests
mod RechargeTests
pub mod ChainData
mod ChainTests
mod GossipTests
mod HashTests
mod IndexerTests
