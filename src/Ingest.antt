-- ===== src/Ingest.antt =====
-- The Analyzer's ingest: the durable ledger and the window of seen ids of analyzer/src/analyzer/api.
pub mod Ledger
pub mod Worker
pub mod Seen
pub mod Window
pub mod Fate
pub mod Once
pub mod Held
mod Tests
