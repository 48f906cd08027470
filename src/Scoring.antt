-- ===== src/Scoring.antt =====
-- Severities and scores of the Analyzer.
pub mod Severity
pub mod Cvss
pub mod Limits
pub mod Bands
mod Tests
