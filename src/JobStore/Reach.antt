-- ===== src/JobStore/Reach.antt =====
-- Every history of the repository (form/src/kcatta_form/job_store.py): the processes that share the
-- database call its operations in any order, and the clock does not run backwards between calls. A
-- call that raises is rolled back and leaves no step.
use kcatta.Prelude.{ℕ, ◌≤◌, ◌≡◌, Bool, Option, List, [], Text}
use kcatta.JobStore.Job.{Time, ScanJob}
use kcatta.JobStore.Rows.{ok, Db, Repo}
use kcatta.JobStore.Create
use kcatta.JobStore.Claim
use kcatta.JobStore.Claim.{ClaimedScanJob}
use kcatta.JobStore.Operations
use kcatta.JobStore.Operations.{TargetOperationLease}
use kcatta.JobStore.Lease
use kcatta.JobStore.Control
use kcatta.JobStore.Control.{Observation}
use kcatta.JobStore.Consistent.{IsConsistent}
use kcatta.JobStore.Consistent.Holder.{
  complete-IsConsistent, manual_retry-IsConsistent, request_cancel-IsConsistent, renew-IsConsistent,
}
use kcatta.JobStore.Exclusion.{IsExclusive, IsExclusive-later}
use kcatta.JobStore.Exclusion.Jobs.{
  complete-IsExclusive, manual_retry-IsExclusive, request_cancel-IsExclusive,
}
use kcatta.JobStore.Exclusion.Grants.{renew-IsExclusive}
use kcatta.JobStore.Exclusion.Polls.{claim_next-keeps}
use kcatta.JobStore.Exclusion.Direct.{acquire_target_operation-keeps}
use kcatta.JobStore.Exclusion.Leases.{release_target_operation-keeps, renew_target_operation-keeps}
use kcatta.JobStore.Exclusion.Create.{create-keeps}
use kcatta.JobStore.Exclusion.Derived.{update_derived_result-keeps}

-- A call at time `now` that returns and commits.
pub data Call (r : Repo) (now : Time) (db db' : Db) : Type 0 where
  create :
      (job : ScanJob) (key fingerprint : Option Text) (stored : ScanJob) (created : Bool)
      → Create.create r job key fingerprint db ≡ ok ((stored, created), db')
      → Call r now db db'
  claim_next :
      (worker : Text) (ttl : Time) (max_running : ℕ) (exclude : List Text) (token : Text)
      (answer : Option ClaimedScanJob)
      → Claim.claim_next r worker now ttl max_running exclude token db ≡ ok (answer, db')
      → Call r now db db'
  renew :
      (claim : ClaimedScanJob) (ttl : Time) (claim' : ClaimedScanJob)
      → Lease.renew r claim now ttl db ≡ ok (claim', db')
      → Call r now db db'
  complete :
      (claim : ClaimedScanJob) (updated job : ScanJob)
      → Lease.complete r claim updated now db ≡ ok (job, db')
      → Call r now db db'
  request_cancel :
      (job_id : Text) (job : ScanJob)
      → Control.request_cancel r job_id now db ≡ ok (job, db')
      → Call r now db db'
  manual_retry :
      (job_id : Text) (job : ScanJob)
      → Control.manual_retry r job_id now db ≡ ok (job, db')
      → Call r now db db'
  update_derived_result :
      (job_id : Text) (o : Observation) (answer : Option ScanJob)
      → Control.update_derived_result r job_id o now db ≡ ok (answer, db')
      → Call r now db db'
  acquire_target_operation :
      (target_id owner : Text) (ttl : Time) (token : Text) (answer : Option TargetOperationLease)
      → Operations.acquire_target_operation r target_id owner now ttl token db ≡ ok (answer, db')
      → Call r now db db'
  renew_target_operation :
      (lease : TargetOperationLease) (ttl : Time) (lease' : TargetOperationLease)
      → Operations.renew_target_operation r lease now ttl db ≡ ok (lease', db')
      → Call r now db db'
  release_target_operation :
      (lease : TargetOperationLease)
      → Operations.release_target_operation r lease db ≡ ok db'
      → Call r now db db'

abbrev pub empty : Db
empty = record { heads = []; operations = []; events = [] }

pub data Reach (r : Repo) : Time → Db → Type 0 where
  start : {now : Time} → Reach r now empty
  call :
      {now later : Time} {db db' : Db}
      → Reach r now db
      → now ≤ later
      → Call r later db db'
      → Reach r later db'

pub record IsSound (now : Time) (db : Db) : Type 0 where
  pub consistent : IsConsistent db
  pub exclusive : IsExclusive now db

-- Each operation, from any sound database, commits a sound one.
pub Call-IsSound :
    (r : Repo) {now : Time} {db db' : Db}
    → Call r now db db'
    → IsSound now db
    → IsConsistent db' × IsExclusive now db'
Call-IsSound r (create job key fingerprint _ _ h) s =
    create-keeps r s.consistent s.exclusive job key fingerprint h
Call-IsSound r (claim_next worker ttl max_running exclude token answer h) s =
    claim_next-keeps r worker _ ttl max_running exclude token s.consistent answer s.exclusive h
Call-IsSound r (renew claim ttl _ h) s = (
  renew-IsConsistent r s.consistent claim _ ttl h,
  renew-IsExclusive r s.consistent s.exclusive claim ttl h,
)
Call-IsSound r (complete claim updated _ h) s = (
  complete-IsConsistent r s.consistent claim updated _ h,
  complete-IsExclusive r s.consistent s.exclusive claim updated h,
)
Call-IsSound r (request_cancel job_id _ h) s = (
  request_cancel-IsConsistent r s.consistent job_id _ h,
  request_cancel-IsExclusive r s.consistent s.exclusive job_id h,
)
Call-IsSound r (manual_retry job_id _ h) s = (
  manual_retry-IsConsistent r s.consistent job_id _ h,
  manual_retry-IsExclusive r s.consistent s.exclusive job_id _ h,
)
Call-IsSound r (update_derived_result job_id o _ h) s =
    update_derived_result-keeps r s.consistent s.exclusive job_id o _ h
Call-IsSound r (acquire_target_operation target_id owner ttl token _ h) s =
    acquire_target_operation-keeps r s.consistent s.exclusive target_id owner ttl token h
Call-IsSound r (renew_target_operation lease ttl _ h) s =
    renew_target_operation-keeps r s.consistent s.exclusive lease ttl h
Call-IsSound r (release_target_operation lease h) s =
    release_target_operation-keeps r s.consistent s.exclusive lease h

empty-IsSound : (now : Time) → IsSound now empty
empty-IsSound now = record {
  consistent = record { keyed = tt; mirrors = λ h m. elim m [ ] };
  exclusive = record { jobs = λ a b m. elim m [ ]; direct = λ a o m. elim m [ ] };
}

-- In every state that the repository reaches from an empty database by calls at times that do not
-- decrease, each job has one head, the head's columns job_id, state, attempt, max_attempts and
-- available_at_us agree with its payload, no two jobs of one
-- target hold unexpired leases, and no job of a target holds one beside an unexpired direct
-- operation on that target.
pub Reach-IsSound : (r : Repo) (now : Time) (db : Db) → Reach r now db → IsSound now db
Reach-IsSound r now db start = empty-IsSound now
Reach-IsSound r now db (call {now = before} {db = db0} reach le made) =
    let s = Reach-IsSound r before db0 reach in
    let s' : IsSound now db0 = record {
      consistent = s.consistent;
      exclusive = IsExclusive-later le s.exclusive;
    } in
    let (c, x) = Call-IsSound r made s' in record { consistent = c; exclusive = x }
