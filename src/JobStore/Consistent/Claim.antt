-- ===== src/JobStore/Consistent/Claim.antt =====
-- What `claim_next` and `update_derived_result` of form/src/kcatta_form/job_store.py do to the heads:
-- the candidate, the row that a claim writes, and that both keep the heads consistent.
use kcatta.Prelude.{
  ℕ, ◌+◌, ◌≡◌, refl, ◌∙◌, true, false, ◌⊎◌, eq_of_some, tail, some, List, [], ◌∷◌, Memᴰ, head,
  arith, Text, Memᴰ-sort_on, sort_on, sort_on-Memᴰ, sort_on-IsSortedOn, IsSortedOn, text_le,
  text_le_refl, select, Memᴰ-select, select-Memᴰ,
}
use kcatta.JobStore.Job.{Time, ScanJob, derive_mode}
use kcatta.JobStore.Rows.{ok, HeadRow, Db, Repo, has_revision}
use kcatta.JobStore.Claim.{
  expire_operations, claimable, claim_key, first_of_list, candidate, claimed_job, ClaimedScanJob,
  claim_next,
}
use kcatta.JobStore.Inversion.Worker.{claimed_head, Claimed, claim_next_ok}
use kcatta.JobStore.Consistent.{
  IsConsistent, has_revision-job_id, written-heads, written-IsConsistent,
}
use kcatta.JobStore.Consistent.Worker.{fail_exhausted_induction}

first_of_list-least :
    (rows : List HeadRow) {row : HeadRow}
    → IsSortedOn claim_key rows
    → first_of_list rows ≡ some row
    → Memᴰ row rows
      × ((other : HeadRow) → Memᴰ other rows → text_le (claim_key row) (claim_key other) ≡ true)
first_of_list-least [] s h = absurd (cc)
first_of_list-least (a ∷ rows) {row} s h = rw (← eq_of_some h) (head refl, first)
  where
    first :
        (other : HeadRow) → Memᴰ other (a ∷ rows) → text_le (claim_key a) (claim_key other) ≡ true
    first other (head e) = rw e (text_le_refl (claim_key a))
    first other (tail m) = s.0 other m

-- The candidate is a claimable head, and the first of them in the order of the claim.
pub record IsCandidate (now : Time) (exclude : List Text) (db : Db) (row : HeadRow) : Type 0 where
  pub member : Memᴰ row db.heads
  pub fits : claimable now exclude db row ≡ true
  pub first :
      (other : HeadRow)
      → Memᴰ other db.heads
      → claimable now exclude db other ≡ true
      → text_le (claim_key row) (claim_key other) ≡ true

pub candidate-IsCandidate :
    (now : Time) (exclude : List Text) (db : Db) {row : HeadRow}
    → candidate now exclude db ≡ some row
    → IsCandidate now exclude db row
unfolding candidate
candidate-IsCandidate now exclude db h =
    let rows = select (claimable now exclude db) db.heads in
    let (m, first) =
      first_of_list-least (sort_on claim_key rows) (sort_on-IsSortedOn claim_key rows) h in
    let (member, fits) =
      Memᴰ-select (claimable now exclude db) db.heads (Memᴰ-sort_on claim_key rows m) in
    record {
      member = member;
      fits = fits;
      first = λ other n q.
          first other (sort_on-Memᴰ claim_key (select-Memᴰ (claimable now exclude db) n q));
    }

pub claimed-job_id :
    (now : Time) (job payload : ScanJob)
    → job ≡ derive_mode (claimed_job now payload)
    → (job.job_id ≡ payload.job_id) × (job.target_id ≡ payload.target_id)
unfolding derive_mode claimed_job
claimed-job_id now job payload e = ground arith

module _ {r : Repo} {worker : Text} {now ttl : Time} {token : Text} {row : HeadRow} {db : Db}
    {claim : ClaimedScanJob} {db' : Db} (done : Claimed r worker now ttl token row db claim db')
    (c : IsConsistent db) (member : Memᴰ row db.heads) where
  pub claimed-same_id : claim.job.job_id ≡ row.job_id
  claimed-same_id = cc (
    (claimed-job_id now claim.job row.payload done.written.encoded).0,
    (c.mirrors row member).job_id,
  )

  claimed_of_row :
      (a : HeadRow) → has_revision claim.job.job_id row.revision a ≡ true → a.job_id ≡ row.job_id
  claimed_of_row a q = has_revision-job_id claim.job.job_id row.revision a q ∙ claimed-same_id

  abbrev pub claimed_row : HeadRow
  claimed_row =
      claimed_head r worker token now (now + ttl) row claim.job done.written.bytes
        (row.revision + 1) row

  pub claimed-heads :
      {b : HeadRow}
      → Memᴰ b db'.heads
      → (Memᴰ b db.heads × (has_revision claim.job.job_id row.revision b ≡ false))
        ⊎ (b ≡ claimed_row)
  claimed-heads k = written-heads done.written c member claimed_of_row (λ a. refl) k

  pub claimed-IsConsistent : IsConsistent db'
  claimed-IsConsistent =
      written-IsConsistent done.written c member claimed_of_row (λ a. refl)
        (record {
          job_id = cc claimed-same_id;
          state = refl;
          attempt = refl;
          max_attempts = refl;
          available = refl;
        })

pub expire-IsConsistent :
    (now : Time) {db : Db} → IsConsistent db → IsConsistent (expire_operations now db)
unfolding expire_operations
expire-IsConsistent now c = record { keyed = c.keyed; mirrors = c.mirrors }

module _ (r : Repo) {db : Db} (c : IsConsistent db) where
  pub claim_next-IsConsistent :
      (worker : Text) (now ttl : Time) (max_running : ℕ) (exclude : List Text) (token : Text)
      {claim : ClaimedScanJob} {db' : Db}
      → claim_next r worker now ttl max_running exclude token db ≡ ok (some claim, db')
      → IsConsistent db'
  claim_next-IsConsistent worker now ttl max_running exclude token h =
      let polled = claim_next_ok r worker now ttl max_running exclude token db h in
      let failed =
        fail_exhausted_induction r now (λ _. Unit {0}) (λ _ _ _ _ _ _ _ _. tt) db polled.swept c tt
          polled.failed in
      let swept = expire-IsConsistent now failed.0 in
      claimed-IsConsistent polled.claimed swept
        (candidate-IsCandidate now exclude _ polled.chosen).member
