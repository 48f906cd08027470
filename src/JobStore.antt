-- ===== src/JobStore.antt =====
-- The durable scan-job repository (form/src/kcatta_form/job_store.py): its tables and operations in
-- the first children, and what is proved of them in the others.
pub mod Job
pub mod Rows
pub mod Create
pub mod Claim
pub mod Operations
pub mod Lease
pub mod Control
pub mod Reads
pub mod Inversion
pub mod Consistent
pub mod Exclusion
pub mod Reach
pub mod Lifecycle
pub mod Fencing
pub mod Promises
mod Tests
