-- ===== src/Access.antt =====
-- services/access-control: the identity side of the anonymous access tokens.
pub mod Validation
pub mod Auth
pub mod Db
pub mod Gdpr
pub mod Outbox
pub mod App
pub mod Start
mod Tests
