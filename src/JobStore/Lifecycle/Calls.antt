-- ===== src/JobStore/Lifecycle/Calls.antt =====
-- Every call of form/src/kcatta_form/job_store.py advances the heads that it finds.
use kcatta.Prelude.{
  ℕ, ◌+◌, ◌≡◌, refl, ◌∙◌, inl, inr, Option, some, none, List, Memᴰ, head, tail, arith, Text,
  is_empty, strip, ltb, length, ◌||◌, ◌==◌, update_where-cases,
}
use kcatta.JobStore.Job.{Time, ScanJob}
use kcatta.JobStore.Rows.{ok, HeadRow, Db, Repo, >>-eq-ok, value_error}
use kcatta.JobStore.Create.{head_job_id, new_head}
use kcatta.JobStore.Claim.{fail_exhausted, expire_operations, ClaimedScanJob, claim_next}
use kcatta.JobStore.Lease.{is_claimed, renew}
use kcatta.JobStore.Operations.{TargetOperationLease, acquire_target_operation}
use kcatta.JobStore.Inversion.Holder.{complete_ok, renew_ok, request_cancel_ok, manual_retry_ok}
use kcatta.JobStore.Inversion.Worker.{claim_next_ok, write_derived_ok, Inserted}
use kcatta.JobStore.Inversion.Create.{create_ok}
use kcatta.JobStore.Consistent.{IsConsistent, has_revision-job_id}
use kcatta.JobStore.Consistent.Holder.{owns-job_id, has_lease-job_id}
use kcatta.JobStore.Consistent.Worker.{fail_exhausted_induction}
use kcatta.JobStore.Consistent.Claim.{candidate-IsCandidate, expire-IsConsistent, claimed-heads}
use kcatta.JobStore.Exclusion.Create.{Roomy-member, make_room-Roomy, absent_job}
use kcatta.JobStore.Exclusion.Derived.{has_succeeded-job_id, update_derived_result_ok}
use kcatta.JobStore.Exclusion.Direct.{acquire_cases, acquired-heads}
use kcatta.JobStore.Exclusion.Leases.{release-Shrinks, renew_operation-Shrinks}
use kcatta.JobStore.Exclusion.Grants.{owns-parts}
use kcatta.JobStore.Exclusion.Polls.{claim_next-none_ok}
use kcatta.JobStore.Reach.{Call}
use kcatta.JobStore.Lifecycle.{Advances, Advances-refl, Comes, written-Comes}
use kcatta.JobStore.Lifecycle.Jobs

pub Advances-trans : {a b c : HeadRow} → Advances a b → Advances b c → Advances a c
Advances-trans f g = record {
  job_id = g.job_id ∙ f.job_id;
  target_id = g.target_id ∙ f.target_id;
  idempotency_key = g.idempotency_key ∙ f.idempotency_key;
  request_fingerprint = g.request_fingerprint ∙ f.request_fingerprint;
  created = g.created ∙ f.created;
  epoch = omega arith;
  revision = omega arith;
  final = λ e. g.final (f.final e);
}

pub swept_heads :
    (now : Time) (db : Db) {a : HeadRow} → Memᴰ a (expire_operations now db).heads → Memᴰ a db.heads
unfolding expire_operations
swept_heads now db m = m

abbrev Advanced : Db → Db → Type 0
Advanced db db' = (b : HeadRow) → Memᴰ b db'.heads → (a : HeadRow) × Memᴰ a db.heads × Advances a b

module _ (r : Repo) (now : Time) {db : Db} (c : IsConsistent db) where
  pub swept-Advanced :
      (swept : Db) → fail_exhausted r now db ≡ ok swept → IsConsistent swept × Advanced db swept
  swept-Advanced swept h =
      fail_exhausted_induction r now (λ d. Advanced db d)
        (λ row d d' _ m q failed f b k. elim (failed.heads k) [
          | inl old ↦ f b old
          | inr new ↦
              let (a, n, s) = f row m in
              (
                a,
                n,
                Advances-trans s (rw new (Jobs.failed-Advances now failed.job failed.bytes row q)),
              )
        ])
        db swept c (λ b m. (b, m, Advances-refl b)) h

  pub claim_next-Advanced :
      (worker : Text) (ttl : Time) (max_running : ℕ) (exclude : List Text) (token : Text)
      {claim : ClaimedScanJob} {db' : Db}
      → claim_next r worker now ttl max_running exclude token db ≡ ok (some claim, db')
      → Advanced db db'
  claim_next-Advanced worker ttl max_running exclude token {claim} h b m =
      let polled = claim_next_ok r worker now ttl max_running exclude token db h in
      let (c', f) = swept-Advanced polled.swept polled.failed in
      let swept = expire_operations now polled.swept in
      let c2 = expire-IsConsistent now c' in
      let chosen = candidate-IsCandidate now exclude swept polled.chosen in
      elim (claimed-heads polled.claimed c2 chosen.member m) [
        | inl old ↦ f b (swept_heads now polled.swept old.0)
        | inr new ↦
            let (a, n, s) = f polled.row (swept_heads now polled.swept chosen.member) in
            (
              a,
              n,
              Advances-trans s (
                  rw new (
                    Jobs.claimed-Advances now claim.job polled.claimed.written.bytes polled.row r
                      worker token (now + ttl) exclude swept chosen.fits)),
            )
      ]

  polled-Advanced :
      (worker : Text) (ttl : Time) (max_running : ℕ) (exclude : List Text) (token : Text)
      (answer : Option ClaimedScanJob) {db' : Db}
      → claim_next r worker now ttl max_running exclude token db ≡ ok (answer, db')
      → Advanced db db'
  polled-Advanced worker ttl max_running exclude token none h b m =
      let (failed, e, same) = claim_next-none_ok r worker now ttl max_running exclude token c h in
      (swept-Advanced failed e).1 b (swept_heads now failed (rw same at m))
  polled-Advanced worker ttl max_running exclude token (some claim) h b m =
      claim_next-Advanced worker ttl max_running exclude token h b m

acquired-Advanced :
    (r : Repo) (target_id owner : Text) (now ttl : Time) (token : Text) (db : Db)
    {answer : Option TargetOperationLease} {db' : Db}
    → IsConsistent db
    → acquire_target_operation r target_id owner now ttl token db ≡ ok (answer, db')
    → Advanced db db'
unfolding acquire_target_operation
acquired-Advanced r target_id owner now ttl token db c h b m =
    let (_, h1) =
      >>-eq-ok (is_empty (strip target_id) || is_empty (strip owner) || (ttl == 0)) value_error _
        h in
    let (_, h2) = >>-eq-ok (ltb 256 (length (strip owner))) value_error _ h1 in
    elim (acquire_cases r (strip target_id) (strip owner) now ttl token db h2) [
      | inl (_, same) ↦ (b, swept_heads now db (rw same at m), Advances-refl b)
      | inr (_, _, done) ↦ elim (acquired-heads done c m) [
        | inl old ↦ (b, old.0, Advances-refl b)
        | inr (a, k, _, e) ↦ (a, k, rw e (Jobs.fenced-Advances a))
      ]
    ]

Inserted-Comes :
    {r : Repo} {job : ScanJob} {bytes : ℕ} {key fingerprint : Option Text} {db db' : Db}
    → Inserted r job bytes key fingerprint db db'
    → (b : HeadRow) → Memᴰ b db'.heads
    → Comes db b
unfolding new_head
Inserted-Comes {r} {job} {db = db} done b m = elim (rw done.logged.heads at m) [
  | tail k ↦ inl (b, Roomy-member (make_room-Roomy r db done.made) k, Advances-refl b)
  | head same ↦ inr (
      rw same (record {
        revision = refl;
        epoch = refl;
        absent = λ a n. absent_job job.job_id db.heads done.absent n;
      }))
]

renewed-Advanced :
    (r : Repo) (claim : ClaimedScanJob) (now ttl : Time) (db : Db) {claim' : ClaimedScanJob}
    {db' : Db}
    → renew r claim now ttl db ≡ ok (claim', db')
    → Advanced db db'
renewed-Advanced r claim now ttl db h b m =
    let done = renew_ok r claim now ttl db h in
    let extend = λ (h : HeadRow). record h {
      lease_expires_at_us = some (now + ttl);
      heartbeat_at_us = some now;
    } in
    elim (update_where-cases head_job_id (is_claimed r claim) extend (λ a _. refl) db.heads
      (rw done.heads at m)) [
        | inl old ↦ (b, old.0, Advances-refl b)
        | inr (a, k, _, e) ↦ (a, k, rw e (Jobs.extended-Advances (some (now + ttl)) (some now) a))
      ]

-- Whatever call is made, a head that is there after it was there before and has advanced, or is of
-- a job that had none.
pub Call-Comes :
    (r : Repo) {now : Time} {db db' : Db}
    → IsConsistent db
    → Call r now db db'
    → (b : HeadRow) → Memᴰ b db'.heads
    → Comes db b
Call-Comes r {now} {db} c (Call.create job key fingerprint _ _ h) b m =
    let done = create_ok r job key fingerprint db h in
    elim done.outcome [
      | inl (_, _, _, _, _, same) ↦ inl (b, rw same at m, Advances-refl b)
      | inr (_, _, _, new) ↦ Inserted-Comes new b m
    ]
Call-Comes r {now} {db} c (Call.claim_next worker ttl max_running exclude token answer h) b m =
    inl (polled-Advanced r now c worker ttl max_running exclude token answer h b m)
Call-Comes r {now} {db} c (Call.renew claim ttl _ h) b m =
    inl (renewed-Advanced r claim now ttl db h b m)
Call-Comes r {now} {db} c (Call.complete claim updated job h) b m =
    let done = complete_ok r claim updated now db h in
    let same = owns-job_id r claim now db done.row done.owned in
    let alive = (owns-parts r claim now db done.row done.owned).0 in
    inl (
      written-Comes done.written c done.member
        (λ a q. cc (has_lease-job_id r claim job.job_id a q, done.same_id, same)) (λ a. refl)
        (Jobs.completed-Advances now job done.written.bytes done.row _ alive done.allowed) b m)
Call-Comes r {now} {db} c (Call.request_cancel job_id job h) b m =
    let done = request_cancel_ok r job_id now db h in
    elim done.outcome [
      | inl (_, _, same) ↦ inl (b, rw same at m, Advances-refl b)
      | inr (open_job, w) ↦ inl (
          written-Comes w c done.member (has_revision-job_id done.row.job_id done.row.revision)
            (λ a. refl)
            (Jobs.cancelled-Advances now job w.bytes done.row (c.mirrors done.row done.member)
              open_job w.encoded)
            b m)
    ]
Call-Comes r {now} {db} c (Call.manual_retry job_id job h) b m =
    let done = manual_retry_ok r job_id now db h in
    inl (
      written-Comes done.written c done.member
        (has_revision-job_id done.row.job_id done.row.revision) (λ a. refl)
        (Jobs.retried-Advances now job done.written.bytes done.row (c.mirrors done.row done.member)
          done.allowed done.written.encoded)
        b m)
Call-Comes r {now} {db} c (Call.update_derived_result job_id o answer h) b m =
    elim (update_derived_result_ok r job_id o now db h) [
      | inl same ↦ inl (b, rw same at m, Advances-refl b)
      | inr seen ↦
          let (job, _, w) = write_derived_ok r o now seen.row seen.result db seen.written in
          inl (
            written-Comes w c seen.member (has_succeeded-job_id seen.row.job_id seen.row.revision)
              (λ a. refl) (Jobs.derived-Advances now job w.bytes seen.row) b m)
    ]
Call-Comes r {now} {db} c (Call.acquire_target_operation target_id owner ttl token _ h) b m =
    inl (acquired-Advanced r target_id owner now ttl token db c h b m)
Call-Comes r {now} {db} c (Call.renew_target_operation lease ttl _ h) b m =
    inl (b, rw (renew_operation-Shrinks r now lease ttl h).0 at m, Advances-refl b)
Call-Comes r {now} {db} c (Call.release_target_operation lease h) b m =
    inl (b, rw (release-Shrinks r now lease h).0 at m, Advances-refl b)
