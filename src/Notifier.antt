-- ===== src/Notifier.antt =====
-- services/blockchain-notifier: the alerts of the chain watcher.
pub mod Mailer
pub mod Nakamoto
pub mod History
pub mod Sales
pub mod Alerts
pub mod Watch
pub mod Fetch
pub mod Config
mod Tests
