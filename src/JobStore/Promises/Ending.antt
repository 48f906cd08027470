-- ===== src/JobStore/Promises/Ending.antt =====
-- How a job ends in form/src/kcatta_form/job_store.py: completion, cancellation and retry.
use kcatta.Prelude.{
  ◌+◌, ◌≡◌, ◌≢◌, refl, sym, ◌∙◌, ap, Bool, true, false, not, ◌&&◌, ◌||◌, ◌⊎◌, inl, inr, some, none,
  Memᴰ, arith, Text, ≟_iff, update_where_hit, IsKeyed-unique,
}
use kcatta.JobStore.Job.{
  Time, ScanJob, ScanJobState, pending, running, cancelling, succeeded, failed, cancelled,
  derive_mode, is_active, is_waiting, is_terminal, is_cancelling, is_succeeded, is_guard,
}
use kcatta.JobStore.Rows.{ok, HeadRow, Db, Repo, live, has_revision}
use kcatta.JobStore.Create.{head_job_id}
use kcatta.JobStore.Claim.{ClaimedScanJob}
use kcatta.JobStore.Lease.{
  owns, complete, may_complete_as, cancellation_terminal, has_result, has_lease,
}
use kcatta.JobStore.Control.{cancel_job, cancelled_head, request_cancel}
use kcatta.JobStore.Inversion.Holder.{complete_ok, request_cancel_ok}
use kcatta.JobStore.Consistent.{IsConsistent, written-heads}
use kcatta.JobStore.Consistent.Holder.{has_lease-job_id}
use kcatta.JobStore.Exclusion.Grants.{owns-parts}
use kcatta.JobStore.Exclusion.Polls.{has_revision_self}
use kcatta.JobStore.Fencing.{owns-epoch}

after_cancellation :
    (from to : ScanJobState) (result guard : Bool)
    → is_cancelling from ≡ true
    → (is_cancelling from
        && not (cancellation_terminal to)
        && not (is_succeeded to && result && not guard))
      ≡ false
    → (to ≡ cancelled) ⊎ (to ≡ failed) ⊎ (to ≡ succeeded) × (result ≡ true) × (guard ≡ false)
after_cancellation from to result guard h e = ground arith

-- On a consistent database a job whose head is cancelling completes only as cancelled or as failed, or
-- as succeeded with an acknowledged result of a job that is no guard.
pub complete-cancelling :
    (r : Repo) (claim : ClaimedScanJob) (updated : ScanJob) (now : Time) (db : Db) (job : ScanJob)
    (db' : Db)
    → IsConsistent db
    → complete r claim updated now db ≡ ok (job, db')
    → (a : HeadRow) → Memᴰ a db.heads
    → a.job_id ≡ job.job_id
    → is_cancelling a.state ≡ true
    → (job.state ≡ cancelled)
      ⊎ (job.state ≡ failed)
      ⊎ (job.state ≡ succeeded) × (has_result job ≡ true) × (is_guard job.capability ≡ false)
complete-cancelling r claim updated now db job db' c h a m same cancelling_now =
    let done = complete_ok r claim updated now db h in
    let (id, _) = owns-epoch r claim now db done.row done.owned in
    let e =
      IsKeyed-unique head_job_id db.heads c.keyed done.row a done.member m
        (cc (id, done.same_id, same)) in
    after_cancellation a.state job.state (has_result job) (is_guard job.capability) cancelling_now
      (rw e at done.not_cancelled)

ended-dead : (state : ScanJobState) → may_complete_as state ≡ true → is_active state ≡ false
ended-dead state h = ground arith

live-active : (now : Time) (h : HeadRow) → live now h ≡ true → is_active h.state ≡ true
unfolding live
live-active now h e = ground arith

owned-missed :
    (r : Repo) (claim : ClaimedScanJob) (job_id : Text) (now : Time) (db : Db) (row : HeadRow)
    → row.job_id ≡ job_id
    → owns r claim now db row ≡ true
    → has_lease r claim job_id row ≢ false
unfolding owns has_lease
owned-missed r claim job_id now db row e o n = ground (arith, ≟_iff row.job_id job_id)

-- A claim completes its job at most once: on a consistent database, after a completion returned, the
-- same claim is refused on what was committed, whatever it reports and at whatever time.
pub complete-once :
    (r : Repo) (claim : ClaimedScanJob) (updated : ScanJob) (now : Time) (db : Db) (job : ScanJob)
    (db' : Db)
    → IsConsistent db
    → complete r claim updated now db ≡ ok (job, db')
    → (again : ScanJob) (at : Time) (x : ScanJob × Db) → complete r claim again at db' ≢ ok x
complete-once r claim updated now db job db' c h again at x h' =
    let done = complete_ok r claim updated now db h in
    let second = complete_ok r claim again at db' {job = x.0} {db' = x.1} h' in
    let (id, epoch) = owns-epoch r claim now db done.row done.owned in
    let (id2, _) = owns-epoch r claim at db' second.row second.owned in
    let (alive, _) = owns-parts r claim at db' second.row second.owned in
    let active = live-active at second.row alive in
    elim (written-heads done.written c done.member
      (λ a q. cc (has_lease-job_id r claim job.job_id a q, done.same_id, id)) (λ a. refl)
      second.member) [
        | inl (old, missed) ↦
            let e =
              IsKeyed-unique head_job_id db.heads c.keyed second.row done.row old done.member
                (id2 ∙ sym id) in
            owned-missed r claim job.job_id now db done.row (id ∙ sym done.same_id) done.owned
              (rw e at missed)
        | inr new ↦
            let dead = ended-dead job.state done.allowed in
            absurd (let state = ap (λ (w : HeadRow). w.state) new in cc (dead, active))
      ]

-- The head that a request to cancel leaves, and that of a retry.
pub record Leaves (a : HeadRow) (job : ScanJob) (db' : Db) : Type 0 where
  pub head : HeadRow
  pub member : Memᴰ head db'.heads
  pub job_id : head.job_id ≡ a.job_id
  pub payload : head.payload ≡ job
  pub state : head.state ≡ job.state
  pub epoch : head.lease_epoch ≡ a.lease_epoch

abbrev pub SameLease : HeadRow → HeadRow → Type 0
SameLease a b =
    (b.lease_owner ≡ a.lease_owner)
    × (b.lease_token_hash ≡ a.lease_token_hash)
    × (b.lease_expires_at_us ≡ a.lease_expires_at_us)

cancel_job-states :
    (now : Time) (payload job : ScanJob)
    → job ≡ derive_mode (cancel_job now payload)
    → (is_terminal payload.state || is_cancelling payload.state) ≡ false
    → (is_waiting payload.state ≡ true) × (job.state ≡ cancelled) × (job.finished_at ≡ some now)
      ⊎ (payload.state ≡ running) × (job.state ≡ cancelling) × (job.cancel_requested_at ≡ some now)
unfolding derive_mode cancel_job
cancel_job-states now payload job e h = ground arith

-- A request to cancel that returns, of a job with a head on a consistent database: a job that has ended
-- or is being cancelled is returned as it is and nothing changes; a waiting job is cancelled at once,
-- finished now; a running job is marked as cancelling, with the request's time, and keeps its lease.
pub request_cancel-outcome :
    (r : Repo) (job_id : Text) (now : Time) (db : Db) (job : ScanJob) (db' : Db)
    → IsConsistent db
    → request_cancel r job_id now db ≡ ok (job, db')
    → (a : HeadRow) → Memᴰ a db.heads
    → a.job_id ≡ job_id
    → ((is_terminal a.state || is_cancelling a.state) ≡ true) × (job ≡ a.payload) × (db' ≡ db)
      ⊎ (k : Leaves a job db') × SameLease a k.head
        × ((is_waiting a.state ≡ true) × (job.state ≡ cancelled) × (job.finished_at ≡ some now)
            ⊎ (a.state ≡ running) × (job.state ≡ cancelling) × (job.cancel_requested_at ≡ some now))
request_cancel-outcome r job_id now db job db' c h a m same =
    let done = request_cancel_ok r job_id now db h in
    let e =
      IsKeyed-unique head_job_id db.heads c.keyed done.row a done.member m
        (done.same_id ∙ sym same) in
    let mirrored = (c.mirrors done.row done.member).state in
    elim done.outcome [
      | inl (final, is_job, same_db) ↦ inl (rw (← e, mirrored) final, rw (← e) is_job, same_db)
      | inr (open_job, w) ↦ inr (
          rw (← e) (
            record {
              head = cancelled_head now job w.bytes (done.row.revision + 1) done.row;
              member = rw w.heads (
                  update_where_hit (has_revision done.row.job_id done.row.revision) _ done.member
                    (has_revision_self done.row.job_id done.row refl));
              job_id = refl;
              payload = refl;
              state = refl;
              epoch = refl;
            },
            (refl, refl, refl),
            rw mirrored (cancel_job-states now done.row.payload job w.encoded open_job),
          ))
    ]

-- A job `after` is `before` started over: what it asks for stays, nothing is left of what it did.
pub record StartedOver (now : Time) (before after : ScanJob) : Type 0 where
  pub job_id : after.job_id ≡ before.job_id
  pub target_id : after.target_id ≡ before.target_id
  pub capability : after.capability ≡ before.capability
  pub created_at : after.created_at ≡ before.created_at
  pub max_attempts : after.max_attempts ≡ before.max_attempts
  pub state : after.state ≡ pending
  pub attempt : after.attempt ≡ 0
  pub available_at : after.available_at ≡ some now
  pub updated_at : after.updated_at ≡ some now
  pub started_at : after.started_at ≡ none
  pub finished_at : after.finished_at ≡ none
  pub cancel_requested_at : after.cancel_requested_at ≡ none
  pub result : after.result ≡ none
  pub error : after.error ≡ none

-- A head without an attempt and without a lease.
pub record Fresh (h : HeadRow) : Type 0 where
  pub attempt : h.attempt ≡ 0
  pub owner : h.lease_owner ≡ none
  pub token : h.lease_token_hash ≡ none
  pub expires : h.lease_expires_at_us ≡ none
  pub heartbeat : h.heartbeat_at_us ≡ none
