-- ===== src/JobStore/Promises.antt =====
-- What the operations of form/src/kcatta_form/job_store.py promise their callers.
pub mod Hold
pub mod Grants
pub mod Choice
pub mod Direct
pub mod Creation
pub mod Room
pub mod Ending
