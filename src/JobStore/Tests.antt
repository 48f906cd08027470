-- ===== src/JobStore/Tests.antt =====
-- The theorems on form/src/kcatta_form/job_store.py at a job that is created, claimed, claimed again,
-- cancelled, completed and evicted.
mod Witnesses
use kcatta.Prelude.{
  ℕ, ◌≤◌, ◌≡◌, refl, Bool, true, false, Option, none, some, List, [], ◌∷◌, Memᴰ, head, tail, Text,
  arith,
}
use kcatta.JobStore.Job.{
  Time, ScanJob, ScanJobState, pending, succeeded, failed, cancelled, ScanCapability,
  ScanJobOptions, WindowsDefenderScan, ScanResult,
}
use kcatta.JobStore.Rows.{Result, ok, err, HeadRow, Db, Repo}
use kcatta.JobStore.Create.{create}
use kcatta.JobStore.Claim.{ClaimedScanJob, claim_next}
use kcatta.JobStore.Operations.{TargetOperationLease, acquire_target_operation}
use kcatta.JobStore.Lease.{complete}
use kcatta.JobStore.Control.{request_cancel, manual_retry}
use kcatta.JobStore.Reach.{Call, Reach, start, call, empty, IsSound, Reach-IsSound}

abbrev pub repo : Repo
repo = record {
  max_record_bytes = 0;
  max_jobs = 2;
  max_history = 100;
  json_bytes = λ _. 1;
  token_hash = λ t. t;
}

abbrev pub options : ScanJobOptions
options = record {
  scan_target = [];
  malware = true;
  windows_defender_scan = WindowsDefenderScan.quick;
  posture = false;
  secrets = false;
  pcap = false;
  iface = [];
  duration = 0;
  bpf = [];
  intel = false;
  ebpf = false;
  guard_network = false;
  guard_onaccess = false;
}

abbrev pub job_named : Text → ScanJob
job_named id = record {
  job_id = id;
  target_id = 84 ∷ [];
  address = [];
  capability = ScanCapability.host;
  mode = none;
  state = pending;
  options = options;
  created_at = 0;
  updated_at = none;
  available_at = none;
  started_at = none;
  finished_at = none;
  cancel_requested_at = none;
  attempt = 0;
  max_attempts = 3;
  result = none;
  error = none;
}

abbrev pub job_a : ScanJob
job_a = job_named (65 ∷ [])

abbrev pub job_b : ScanJob
job_b = job_named (66 ∷ [])

abbrev pub nothing_stored : ScanJob × Bool
nothing_stored = (job_a, false)

abbrev pub committed : {A : Type 0} → Result (A × Db) → Db
committed (ok (a, db)) = db
committed (err e) = empty

abbrev pub claim_in : Result (Option ClaimedScanJob × Db) → ClaimedScanJob
claim_in (ok (some claim, db)) = claim
claim_in _ = record {
  job = job_a;
  lease_token = [];
  lease_epoch = 0;
  lease_owner = [];
  lease_expires_at = 0;
}

abbrev pub job_in : Result (ScanJob × Db) → ScanJob
job_in (ok (job, db)) = job
job_in (err e) = job_a

abbrev pub stored_in : Result ((ScanJob × Bool) × Db) → ScanJob × Bool
stored_in (ok (s, db)) = s
stored_in (err e) = nothing_stored

abbrev pub worker : Text
worker = 87 ∷ []

abbrev pub key : Option Text
key = some (75 ∷ [])

abbrev pub print : Option Text
print = some (70 ∷ [])

abbrev pub creation : Result ((ScanJob × Bool) × Db)
creation = create repo job_a key print empty

abbrev pub created : Db
created = committed creation

abbrev pub claiming : Result (Option ClaimedScanJob × Db)
claiming = claim_next repo worker 10 5 1 [] (1 ∷ []) created

abbrev pub leased : Db
leased = committed claiming

abbrev pub first_claim : ClaimedScanJob
first_claim = claim_in claiming

abbrev pub reclaiming : Result (Option ClaimedScanJob × Db)
reclaiming = claim_next repo worker 20 5 1 [] (2 ∷ []) leased

abbrev pub report : ScanJobState → ScanJob
report state = record first_claim.job { state = state }

abbrev pub ending : ScanJobState → Result (ScanJob × Db)
ending state = complete repo first_claim (report state) 12 leased

abbrev pub cancelling_call : Result (ScanJob × Db)
cancelling_call = request_cancel repo (65 ∷ []) 11 leased

pub creation-ok : creation ≡ ok (stored_in creation, created)
unfolding create
creation-ok = refl

pub claiming-ok : claiming ≡ ok (some first_claim, leased)
unfolding create claim_next
claiming-ok = refl

pub created-Reach : Reach repo 10 created
unfolding create
created-Reach = call {now = 0} start (omega arith) (Call.create job_a key print _ _ creation-ok)

pub leased-Reach : Reach repo 10 leased
leased-Reach =
    call {now = 10} created-Reach (omega arith)
      (Call.claim_next worker 5 1 [] (1 ∷ []) (some first_claim) claiming-ok)
