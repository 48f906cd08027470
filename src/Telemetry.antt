-- ===== src/Telemetry.antt =====
-- The splitting of telemetry into envelopes that the Analyzer accepts
-- (form/src/kcatta_form/telemetry_chunks.py).
pub mod Pack
pub mod Lineage
pub mod Split
pub mod Trace
pub mod Packed
pub mod Bounded
pub mod Names
pub mod Assets
pub mod Lossless
pub mod Traces
pub mod Outcome
pub mod Sendable
mod Tests
