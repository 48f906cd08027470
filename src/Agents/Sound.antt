-- ===== src/Agents/Sound.antt =====
-- What holds of the two tables of the registry between calls
-- (form/src/kcatta_form/agent_identity_store.py): its unique columns, and what its transactions keep.
pub mod Keys
pub mod Registered
pub mod Staged
pub mod Weakened
pub mod Rotated
pub mod Activated
