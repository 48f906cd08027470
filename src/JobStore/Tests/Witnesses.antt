-- ===== src/JobStore/Tests/Witnesses.antt =====
-- The theorems on form/src/kcatta_form/job_store.py applied to concrete jobs.
use kcatta.Prelude.{
  ◌≤◌, ◌<◌, ◌≡◌, ◌≢◌, refl, Bool, true, false, ◌⊎◌, Option, none, some, List, [], ◌∷◌, Memᴰ, head,
  arith, length, exists_where, strip, count_where, same_text?, if◌then◌else◌, ◌||◌,
}
use kcatta.JobStore.Job.{
  ScanJob, pending, running, cancelling, succeeded, failed, cancelled, is_active, is_terminal,
  is_cancelling, is_waiting, is_guard, derive_mode,
}
use kcatta.JobStore.Rows.{
  Result, ok, err, job_conflict, integrity_error, HeadRow, Db, Repo, live, encode, is_event,
}
use kcatta.JobStore.Create.{create, import_legacy, checked_key, get, legacy_job}
use kcatta.JobStore.Claim.{ClaimedScanJob, claim_next}
use kcatta.JobStore.Operations.{TargetOperationLease, acquire_target_operation}
use kcatta.JobStore.Lease.{renew, complete, has_result}
use kcatta.JobStore.Control.{request_cancel, manual_retry}
use kcatta.JobStore.Reach.{Call, call, empty, IsSound, Reach-IsSound}
use kcatta.JobStore.Exclusion.{IsExclusive-later}
use kcatta.JobStore.Lifecycle.{Advances}
use kcatta.JobStore.Fencing.{stay, Call-Advances}
use kcatta.JobStore.Promises.Grants.{claim_next-max_running, claim_next-supersedes}
use kcatta.JobStore.Promises.Choice.{Chosen, claim_next-Chosen}
use kcatta.JobStore.Promises.Direct.{acquire_target_operation-fences}
use kcatta.JobStore.Promises.Creation.{create-idempotent, import_legacy-collision}
use kcatta.JobStore.Promises.Room.{create-spares, create-max_jobs}
use kcatta.JobStore.Promises.Ending.{
  Leaves, SameLease, complete-cancelling, complete-once, request_cancel-outcome,
}
use kcatta.JobStore.Tests.{
  repo, job_a, job_b, committed, claim_in, job_in, stored_in, worker, key, print, creation, created,
  leased, first_claim, reclaiming, report, ending, cancelling_call, creation-ok, claiming-ok,
  created-Reach, leased-Reach,
}

Reach-IsSound_example : IsSound 10 leased
Reach-IsSound_example = Reach-IsSound repo 10 leased leased-Reach

leased-IsSound : IsSound 10 leased
leased-IsSound = Reach-IsSound repo 10 leased leased-Reach

created-IsSound : IsSound 10 created
created-IsSound = Reach-IsSound repo 10 created created-Reach

abbrev first_row : List HeadRow → HeadRow → HeadRow
first_row [] other = other
first_row (row ∷ rows) other = row

abbrev no_row : HeadRow
no_row = record {
  job_id = [];
  payload = job_a;
  payload_bytes = 0;
  state = pending;
  target_id = [];
  created_at_us = 0;
  updated_at_us = 0;
  available_at_us = none;
  attempt = 0;
  max_attempts = 0;
  revision = 0;
  lease_owner = none;
  lease_token_hash = none;
  lease_epoch = 0;
  lease_expires_at_us = none;
  heartbeat_at_us = none;
  idempotency_key = none;
  request_fingerprint = none;
}

abbrev created_row : HeadRow
created_row = first_row created.heads no_row

abbrev leased_row : HeadRow
leased_row = first_row leased.heads no_row

in_created : Memᴰ created_row created.heads
unfolding create
in_created = head refl

in_leased : Memᴰ leased_row leased.heads
unfolding create claim_next
in_leased = head refl

same_job : leased_row.job_id ≡ created_row.job_id
unfolding create claim_next
same_job = refl

Call-Advances_example : Advances created_row leased_row
Call-Advances_example =
    Call-Advances repo 10 created leased created-IsSound
      (Call.claim_next worker 5 1 [] (1 ∷ []) (some first_claim) claiming-ok) created_row leased_row
      in_created in_leased same_job

claim_next-Chosen_example : Chosen repo 10 [] created first_claim
claim_next-Chosen_example =
    claim_next-Chosen repo worker 10 5 1 [] (1 ∷ []) created first_claim leased claiming-ok

claim_next-max_running_example : count_where (live 10) leased.heads ≤ 1
claim_next-max_running_example =
    claim_next-max_running repo worker 10 5 1 [] (1 ∷ []) created first_claim leased claiming-ok

abbrev second_claim : ClaimedScanJob
second_claim = claim_in reclaiming

abbrev releasing : Db
releasing = committed reclaiming

reclaiming-ok : reclaiming ≡ ok (some second_claim, releasing)
unfolding create claim_next
reclaiming-ok = refl

later-IsSound : IsSound 20 leased
later-IsSound = record {
  consistent = leased-IsSound.consistent;
  exclusive = IsExclusive-later (omega arith) leased-IsSound.exclusive;
}

leased_id : leased_row.job_id ≡ second_claim.job.job_id
unfolding create claim_next
leased_id = refl

first_id : first_claim.job.job_id ≡ second_claim.job.job_id
unfolding create claim_next
first_id = refl

first_epoch : first_claim.lease_epoch ≤ leased_row.lease_epoch
unfolding create claim_next
first_epoch = omega arith

claim_next-supersedes_example :
    ((x : ClaimedScanJob × Db) → renew repo first_claim 21 5 releasing ≢ ok x)
    × ((x : ScanJob × Db) → complete repo first_claim (report succeeded) 21 releasing ≢ ok x)
claim_next-supersedes_example =
    claim_next-supersedes repo worker 20 5 1 [] (2 ∷ []) leased second_claim releasing later-IsSound
      reclaiming-ok first_claim leased_row in_leased leased_id first_id first_epoch 20 releasing
      stay 21 5 (report succeeded)

abbrev acquiring : Result (Option TargetOperationLease × Db)
acquiring = acquire_target_operation repo (84 ∷ []) worker 20 5 (3 ∷ []) leased

abbrev lease_in : Result (Option TargetOperationLease × Db) → TargetOperationLease
lease_in (ok (some lease, db)) = lease
lease_in _ = record { target_id = []; lease_token = []; lease_owner = []; lease_expires_at = 0 }

acquiring-ok : acquiring ≡ ok (some (lease_in acquiring), committed acquiring)
unfolding create claim_next acquire_target_operation
acquiring-ok = refl

on_target : leased_row.target_id ≡ strip (84 ∷ [])
unfolding create claim_next strip
on_target = refl

still_active : is_active leased_row.state ≡ true
unfolding create claim_next
still_active = refl

own_id : leased_row.job_id ≡ first_claim.job.job_id
unfolding create claim_next
own_id = refl

acquire_target_operation-fences_example :
    ((x : ClaimedScanJob × Db) → renew repo first_claim 30 5 (committed acquiring) ≢ ok x)
    × ((x : ScanJob × Db)
        → complete repo first_claim (report succeeded) 30 (committed acquiring) ≢ ok x)
acquire_target_operation-fences_example =
    acquire_target_operation-fences repo (84 ∷ []) worker 20 5 (3 ∷ []) leased (lease_in acquiring)
      (committed acquiring) later-IsSound acquiring-ok first_claim leased_row in_leased on_target
      still_active own_id first_epoch 20 (committed acquiring) stay 30 5 (report succeeded)

ending-ok : ending succeeded ≡ ok (job_in (ending succeeded), committed (ending succeeded))
unfolding create claim_next complete
ending-ok = refl

complete-once_example :
    complete repo first_claim (report failed) 13 (committed (ending succeeded)) ≢ ok (job_a, empty)
complete-once_example =
    complete-once repo first_claim (report succeeded) 12 leased (job_in (ending succeeded))
      (committed (ending succeeded)) leased-IsSound.consistent ending-ok (report failed) 13
      (job_a, empty)

abbrev cancelling_db : Db
cancelling_db = committed cancelling_call

cancelling_call-ok : cancelling_call ≡ ok (job_in cancelling_call, cancelling_db)
unfolding create claim_next request_cancel
cancelling_call-ok = refl

leased_job_id : leased_row.job_id ≡ 65 ∷ []
unfolding create claim_next
leased_job_id = refl

request_cancel-outcome_example :
    ((is_terminal leased_row.state || is_cancelling leased_row.state) ≡ true)
      × (job_in cancelling_call ≡ leased_row.payload)
      × (cancelling_db ≡ leased)
    ⊎ (k : Leaves leased_row (job_in cancelling_call) cancelling_db) × SameLease leased_row k.head
      × ((is_waiting leased_row.state ≡ true)
            × ((job_in cancelling_call).state ≡ cancelled)
            × ((job_in cancelling_call).finished_at ≡ some 11)
          ⊎ (leased_row.state ≡ running)
            × ((job_in cancelling_call).state ≡ cancelling)
            × ((job_in cancelling_call).cancel_requested_at ≡ some 11))
request_cancel-outcome_example =
    request_cancel-outcome repo (65 ∷ []) 11 leased (job_in cancelling_call) cancelling_db
      leased-IsSound.consistent cancelling_call-ok leased_row in_leased leased_job_id

cancelling-IsSound : IsSound 11 cancelling_db
cancelling-IsSound = Reach-IsSound repo 11 cancelling_db (
    call {now = 10} leased-Reach (omega arith)
      (Call.request_cancel (65 ∷ []) (job_in cancelling_call) cancelling_call-ok))

abbrev cancelling_row : HeadRow
cancelling_row = first_row cancelling_db.heads no_row

in_cancelling : Memᴰ cancelling_row cancelling_db.heads
unfolding create claim_next request_cancel
in_cancelling = head refl

abbrev giving_up : Result (ScanJob × Db)
giving_up = complete repo first_claim (report cancelled) 12 cancelling_db

giving_up-ok : giving_up ≡ ok (job_in giving_up, committed giving_up)
unfolding create claim_next request_cancel complete
giving_up-ok = refl

cancelling_id : cancelling_row.job_id ≡ (job_in giving_up).job_id
unfolding create claim_next request_cancel complete
cancelling_id = refl

is_cancelling_now : is_cancelling cancelling_row.state ≡ true
unfolding create claim_next request_cancel
is_cancelling_now = refl

complete-cancelling_example :
    ((job_in giving_up).state ≡ cancelled)
    ⊎ ((job_in giving_up).state ≡ failed)
    ⊎ ((job_in giving_up).state ≡ succeeded)
      × (has_result (job_in giving_up) ≡ true)
      × (is_guard (job_in giving_up).capability ≡ false)
complete-cancelling_example =
    complete-cancelling repo first_claim (report cancelled) 12 cancelling_db (job_in giving_up)
      (committed giving_up) cancelling-IsSound.consistent giving_up-ok cancelling_row in_cancelling
      cancelling_id is_cancelling_now

abbrev given_up : Db
given_up = committed giving_up

abbrev given_up_row : HeadRow
given_up_row = first_row given_up.heads no_row

abbrev retrying_call : Result (ScanJob × Db)
retrying_call = manual_retry repo (65 ∷ []) 14 given_up

encoded_b : encode repo job_b ≡ ok (derive_mode job_b, 1)
unfolding encode derive_mode
encoded_b = refl

key_ok : checked_key key print ≡ ok key
unfolding checked_key
key_ok = refl

create-idempotent_example : create repo job_b key print created ≡ (
    if same_text? print print
    then ok (((stored_in creation).0, false), created)
    else err job_conflict)
create-idempotent_example =
    create-idempotent repo job_a (75 ∷ []) print empty (stored_in creation).0 (stored_in creation).1
      created creation-ok job_b (derive_mode job_b, 1) print key encoded_b key_ok

abbrev second_creation : Result ((ScanJob × Bool) × Db)
second_creation = create repo job_b none none created

second_creation-ok : second_creation ≡ ok (stored_in second_creation, committed second_creation)
unfolding create
second_creation-ok = refl

waiting_row : is_terminal created_row.state ≡ false
unfolding create
waiting_row = refl

create-spares_example : Memᴰ created_row (committed second_creation).heads
create-spares_example =
    create-spares repo job_b none none created (stored_in second_creation).0
      (stored_in second_creation).1 (committed second_creation) created-IsSound.consistent
      second_creation-ok created_row in_created waiting_row

limit_set : repo.max_jobs ≢ 0
limit_set e = absurd (omega (arith, e))

few_heads : length created.heads ≤ repo.max_jobs
unfolding create
few_heads = omega arith

create-max_jobs_example : length (committed second_creation).heads ≤ repo.max_jobs
create-max_jobs_example =
    create-max_jobs repo job_b none none created (stored_in second_creation).0
      (stored_in second_creation).1 (committed second_creation) limit_set few_heads
      second_creation-ok

-- With room for one job, the second creation evicts the first job's head and leaves its events.
abbrev small : Repo
small = record repo { max_jobs = 1 }

abbrev evicted_db : Db
evicted_db = committed (create small job_b none none given_up)

encoded_legacy : encode repo (legacy_job 30 job_a) ≡ ok (derive_mode job_a, 1)
unfolding encode derive_mode legacy_job
encoded_legacy = refl

gone : get evicted_db job_a.job_id ≡ none
unfolding create claim_next request_cancel complete get
gone = refl

room_left : length evicted_db.heads < repo.max_jobs
unfolding create claim_next request_cancel complete
room_left = omega arith

still_logged : exists_where (is_event job_a.job_id 0) evicted_db.events ≡ true
unfolding create claim_next request_cancel complete exists_where is_event
still_logged = refl

import_legacy-collision_example :
    import_legacy repo 30 (job_a ∷ []) 0 evicted_db ≡ (err integrity_error, evicted_db)
import_legacy-collision_example =
    import_legacy-collision repo 30 job_a [] 0 evicted_db (derive_mode job_a, 1) encoded_legacy gone
      room_left still_logged
