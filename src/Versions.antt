-- ===== src/Versions.antt =====
-- Version comparison of analyzer/src/analyzer/detect.
pub mod Compare
pub mod Debian
pub mod Semver
pub mod Rpm
pub mod Apk
pub mod Short
pub mod Totals
pub mod Choice
pub mod Order
pub mod Swap
mod Tests
