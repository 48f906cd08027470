-- ===== src/Agents/Promises.antt =====
-- What the registry (form/src/kcatta_form/agent_identity_store.py) promises its callers.
pub mod Credentials
pub mod History
pub mod Revocations
pub mod Finality
pub mod Reads
pub mod Staging
pub mod Handover
pub mod Binding
