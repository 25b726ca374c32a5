-- ===== src/Faucet.antt =====
-- services/testnet-faucet: the drip faucet, from the cooldown limiter to the HTTP handlers.
pub mod Limiter
pub mod Budget
pub mod Validation
pub mod Server
pub mod System
mod Tests
