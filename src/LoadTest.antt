-- ===== src/LoadTest.antt =====
-- endurance: the load generator, from the nonces of its wallets to the transactions in flight.
pub mod Nonces
pub mod Send
pub mod Collector
pub mod Rate
pub mod Metrics
pub mod Logger
pub mod Workload
pub mod Receipts
pub mod Run
pub mod Stress
pub mod Reclaim
mod Tests
