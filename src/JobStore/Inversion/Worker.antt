-- ===== src/JobStore/Inversion/Worker.antt =====
-- What `_fail_exhausted`, `claim_next`, `update_derived_result` and `create` of
-- form/src/kcatta_form/job_store.py have done where they return.
use kcatta.Prelude.{
  ℕ, ◌+◌, ◌≡◌, refl, sym, ap, Bool, true, false, not, ◌||◌, inl, inr, Option, none, some, List, ◌∷◌,
  arith, Text, is_empty, leb, ◌==◌, Bool-cases, Option-cases, eq_of_some, count_where, exists_where,
}
use kcatta.JobStore.Job.{Time, ScanJob, ScanResult, or_else}
use kcatta.JobStore.Rows.{
  ok, ok_elim, ok-injective, >>-eq-ok, value_error, runtime_error, job_conflict, HeadRow, Db, Repo,
  live, encode, event, has_job_id, has_revision, unleased, stored,
}
use kcatta.JobStore.Create.{make_room_for_job, new_head, insert_head}
use kcatta.JobStore.Claim.{
  failed_job, fail_row, fail_exhausted, expire_operations, candidate, claimed_job, ClaimedScanJob,
  leased_head, claim_row, claim_next,
}
use kcatta.JobStore.Control.{Observation, derived_job, derived_head, has_succeeded, write_derived}
use kcatta.JobStore.Inversion.{Written, Logged, rewritten, Written-of_ok, event_ok, new_event}

abbrev pub failed_head : Time → ScanJob → ℕ → ℕ → HeadRow → HeadRow
failed_head now job bytes revision h =
    unleased (record (stored job bytes now revision h) { available_at_us = none })

-- The rows that `fail_row` writes are those of the job that the payload names.
pub fail_row_ok :
    (r : Repo) (now : Time) (row : HeadRow) (db : Db) {db' : Db}
    → fail_row r now row db ≡ ok db'
    → (job : ScanJob) × Written r
        (has_revision job.job_id row.revision)
        (failed_head now)
        (failed_job now row.payload)
        now
        row
        db
        job
        db'
unfolding fail_row
fail_row_ok r now row db h = ok_elim (encode r (failed_job now row.payload)) _ h λ encoded e h'.
    let (job, bytes) = encoded in
    (
      job,
      Written-of_ok r (has_revision job.job_id row.revision) (failed_head now)
          (failed_job now row.payload) now row db job bytes e h',
    )

abbrev pub claimed_head :
    Repo → Text → Text → Time → Time → HeadRow → ScanJob → ℕ → ℕ → HeadRow → HeadRow
claimed_head r worker token now expires row job bytes revision =
    leased_head r worker token now expires job bytes row

-- `claim_row` returned a claim: it is of the encoded job, under the next epoch.
pub record Claimed (r : Repo) (worker : Text) (now ttl : Time) (token : Text) (row : HeadRow)
    (db : Db) (claim : ClaimedScanJob) (db' : Db) : Type 0 where
  pub one_row : (count_where (has_revision claim.job.job_id row.revision) db.heads == 1) ≡ true
  pub epoch : claim.lease_epoch ≡ row.lease_epoch + 1
  pub token_given : claim.lease_token ≡ token
  pub nonempty : is_empty token ≡ false
  pub owner : claim.lease_owner ≡ worker
  pub expires : claim.lease_expires_at ≡ now + ttl
  pub written :
      Written r
        (has_revision claim.job.job_id row.revision)
        (claimed_head r worker token now (now + ttl) row)
        (claimed_job now row.payload)
        now
        row
        db
        claim.job
        db'

pub claim_row_ok :
    (r : Repo) (worker : Text) (now ttl : Time) (token : Text) (row : HeadRow) (db : Db)
    {claim : ClaimedScanJob} {db' : Db}
    → claim_row r worker now ttl token row db ≡ ok (some claim, db')
    → Claimed r worker now ttl token row db claim db'
unfolding claim_row
claim_row_ok r worker now ttl token row db {claim} {db'} h =
    ok_elim (encode r (claimed_job now row.payload)) _ h λ encoded e h'.
      let (job, bytes) = encoded in
      let (nonempty, h2) = >>-eq-ok (is_empty token) runtime_error _ h' in
      let matching = has_revision job.job_id row.revision in
      let columns = claimed_head r worker token now (now + ttl) row in
      let changed = claimed_job now row.payload in
      let written = rewritten r matching columns changed now row db job bytes in
      elim (Bool-cases (count_where matching db.heads == 1)) [
        | inl one ↦
            ok_elim (event r written job (row.revision + 1) now bytes) _ (rw one at h2)
              λ done e3 h4.
                let same = ok-injective (sym h4) in
                let db_same = ap (λ p. p.1) same in
                let claim_same = eq_of_some (ap (λ p. p.0) same) in
                rw (claim_same, db_same)
                  (record {
                    one_row = one;
                    epoch = refl;
                    token_given = refl;
                    nonempty = nonempty;
                    owner = refl;
                    expires = refl;
                    written = Written-of_ok r matching columns changed now row db job bytes e e3;
                  })
        | inr other ↦ absurd (let h3 = rw other at h2 in ground arith)
      ]

-- `claim_next` returned: the exhausted jobs failed, and either no claim was made or a candidate was
-- claimed.
pub record Polled (r : Repo) (worker : Text) (now ttl : Time) (max_running : ℕ)
    (exclude : List Text) (token : Text) (db : Db) (claim : ClaimedScanJob) (db' : Db)
    : Type 0 where
  pub swept : Db
  pub failed : fail_exhausted r now db ≡ ok swept
  pub room : leb max_running (count_where (live now) (expire_operations now swept).heads) ≡ false
  pub row : HeadRow
  pub chosen : candidate now exclude (expire_operations now swept) ≡ some row
  pub claimed : Claimed r worker now ttl token row (expire_operations now swept) claim db'

pub claim_next_ok :
    (r : Repo) (worker : Text) (now ttl : Time) (max_running : ℕ) (exclude : List Text)
    (token : Text) (db : Db) {claim : ClaimedScanJob} {db' : Db}
    → claim_next r worker now ttl max_running exclude token db ≡ ok (some claim, db')
    → Polled r worker now ttl max_running exclude token db claim db'
unfolding claim_next
claim_next_ok r worker now ttl max_running exclude token db {claim} {db'} h =
    let (valid, h1) =
      >>-eq-ok (is_empty worker || (max_running == 0) || (ttl == 0)) value_error _ h in
    ok_elim (fail_exhausted r now db) _ h1 λ failed e h2.
      let swept = expire_operations now failed in
      elim (Bool-cases (leb max_running (count_where (live now) swept.heads))) [
        | inl full ↦ absurd (let h3 = rw full at h2 in ground arith)
        | inr room ↦ elim (Option-cases (candidate now exclude swept)) [
          | inl nothing ↦ absurd (let h3 = rw (room, nothing) at h2 in ground arith)
          | inr (row, chosen) ↦ record {
            swept = failed;
            failed = e;
            room = room;
            row = row;
            chosen = chosen;
            claimed = claim_row_ok r worker now ttl token row swept (rw (room, chosen) at h2);
          }
        ]
      ]

pub write_derived_ok :
    (r : Repo) (o : Observation) (now : Time) (row : HeadRow) (result : ScanResult) (db : Db)
    {answer : Option ScanJob} {db' : Db}
    → write_derived r o now row result db ≡ ok (answer, db')
    → (job : ScanJob) × (answer ≡ some job)
      × Written r
          (has_succeeded row.job_id row.revision)
          (λ j b. derived_head j b now)
          (derived_job o now row.payload result)
          now
          row
          db
          job
          db'
unfolding write_derived
write_derived_ok r o now row result db {answer} {db'} h =
    let changed = derived_job o now row.payload result in
    ok_elim (encode r changed) _ h λ encoded e h'.
      let (job, bytes) = encoded in
      let matching = has_succeeded row.job_id row.revision in
      let columns = λ (j : ScanJob) (b : ℕ). derived_head j b now in
      let written = rewritten r matching columns changed now row db job bytes in
      let (one, h2) = >>-eq-ok (not (count_where matching db.heads == 1)) job_conflict _ h' in
      ok_elim (event r written job (row.revision + 1) now bytes) _ h2 λ done e3 h4.
        let same = ok-injective (sym h4) in
        (
          job,
          ap (λ p. p.0) same,
          rw (ap (λ p. p.1) same)
              (Written-of_ok r matching columns changed now row db job bytes e e3),
        )

-- The insertion of a new head: no head had its id, and its first event is logged.
pub record Inserted (r : Repo) (job : ScanJob) (bytes : ℕ) (key fingerprint : Option Text)
    (db db' : Db) : Type 0 where
  pub absent : exists_where (has_job_id job.job_id) db.heads ≡ false
  pub roomy : Db
  pub made : make_room_for_job r db ≡ ok roomy
  pub logged :
      Logged r
        (record roomy { heads = new_head job bytes key fingerprint ∷ roomy.heads })
        (new_event job 0 (or_else job.updated_at job.created_at) bytes)
        db'

pub insert_head_ok :
    (r : Repo) (job : ScanJob) (bytes : ℕ) (key fingerprint : Option Text) (db : Db)
    {answer : ScanJob × Bool} {db' : Db}
    → insert_head r job bytes key fingerprint db ≡ ok (answer, db')
    → (answer ≡ (job, true)) × Inserted r job bytes key fingerprint db db'
unfolding insert_head
insert_head_ok r job bytes key fingerprint db h =
    let at = or_else job.updated_at job.created_at in
    let (absent, h1) = >>-eq-ok (exists_where (has_job_id job.job_id) db.heads) job_conflict _ h in
    ok_elim (make_room_for_job r db) _ h1 λ roomy e h2.
      let added : Db = record roomy { heads = new_head job bytes key fingerprint ∷ roomy.heads } in
      ok_elim (event r added job 0 at bytes) _ h2 λ done e2 h3.
        let same = ok-injective (sym h3) in
        (
          ap (λ p. p.0) same,
          rw (ap (λ p. p.1) same) (record {
            absent = absent;
            roomy = roomy;
            made = e;
            logged = event_ok r added job 0 at bytes e2;
          }),
        )
