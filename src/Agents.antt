-- ===== src/Agents.antt =====
-- The registry of agent identities and their certificate generations
-- (form/src/kcatta_form/agent_identity_store.py and schemas/agent_identity.py).
pub mod Rows
pub mod Normalize
pub mod Registry
pub mod Rotation
pub mod Revocation
pub mod Verify
pub mod Effect
pub mod Sound
pub mod Reach
pub mod Extends
pub mod Accepted
pub mod Promises
mod Tests
