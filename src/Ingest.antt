-- ===== src/Ingest.antt =====
-- The sync of a user's broker transactions (src/morai/ingest/).
pub mod Extract
pub mod Windows
pub mod BrokerTransactions
pub mod Runs
pub mod UserSync
pub mod Worker
mod Tests
