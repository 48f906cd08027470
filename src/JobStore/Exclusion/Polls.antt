-- ===== src/JobStore/Exclusion/Polls.antt =====
-- `claim_next` of form/src/kcatta_form/job_store.py, whatever it answers: it keeps leases exclusive
-- and the heads consistent, and a chosen head is always claimed.
use kcatta.Prelude.{
  ℕ, ◌+◌, ◌≡◌, sym, ◌∙◌, ap, true, ◌||◌, inl, inr, Option, none, some, List, Memᴰ, arith, Text,
  ≟_iff, is_empty, leb, ◌==◌, Bool-cases, Option-cases, count_where, count_where_unique,
}
use kcatta.JobStore.Job.{Time}
use kcatta.JobStore.Rows.{
  ok, ok_elim, ok-injective, >>-eq-ok, value_error, runtime_error, HeadRow, Db, Repo, live, encode,
  event, has_revision,
}
use kcatta.JobStore.Create.{head_job_id}
use kcatta.JobStore.Claim.{
  fail_exhausted, expire_operations, candidate, claimed_job, ClaimedScanJob, claim_row, claim_next,
}
use kcatta.JobStore.Inversion.{rewritten, encode_ok}
use kcatta.JobStore.Inversion.Worker.{claimed_head}
use kcatta.JobStore.Consistent.{IsConsistent, has_revision-job_id}
use kcatta.JobStore.Consistent.Worker.{fail_exhausted_induction}
use kcatta.JobStore.Consistent.Claim.{
  candidate-IsCandidate, claimed-job_id, expire-IsConsistent, claim_next-IsConsistent,
}
use kcatta.JobStore.Exclusion.{IsExclusive}
use kcatta.JobStore.Exclusion.Grants.{swept-IsExclusive, claim_next-IsExclusive}

some-ne-none {ℓ} : {A : Type ℓ} {a : A} → some a ≡ none → ⊥
some-ne-none h = cc

pub has_revision_self :
    (job_id : Text) (h : HeadRow) → job_id ≡ h.job_id → has_revision job_id h.revision h ≡ true
unfolding has_revision
has_revision_self job_id h e = ground (arith, ≟_iff h.job_id job_id)

-- The update of a claim finds exactly the row that was read.
pub one_claimed_row :
    {db : Db} (c : IsConsistent db) (row : HeadRow) (job_id : Text)
    → Memᴰ row db.heads
    → job_id ≡ row.job_id
    → count_where (has_revision job_id row.revision) db.heads ≡ 1
one_claimed_row {db} c row job_id m e =
    count_where_unique head_job_id (has_revision job_id row.revision) db.heads row c.keyed m
      (has_revision_self job_id row e) (λ b q. has_revision-job_id job_id row.revision b q ∙ e)

claim_row-ne-none :
    (r : Repo) (worker : Text) (now ttl : Time) (token : Text) (row : HeadRow) (db : Db) {db' : Db}
    → IsConsistent db
    → Memᴰ row db.heads
    → claim_row r worker now ttl token row db ≡ ok (none, db')
    → ⊥
unfolding claim_row
claim_row-ne-none r worker now ttl token row db c m h =
    ok_elim (encode r (claimed_job now row.payload)) _ h λ encoded e h1.
      let (job, bytes) = encoded in
      let (_, h2) = >>-eq-ok (is_empty token) runtime_error _ h1 in
      let id =
        (claimed-job_id now job row.payload (encode_ok r (claimed_job now row.payload) e).0).0
        ∙ sym (c.mirrors row m).job_id in
      let one = one_claimed_row c row job.job_id m id in
      let h3 = rw one at h2 in
      let columns = claimed_head r worker token now (now + ttl) row in
      let written =
        rewritten r (has_revision job.job_id row.revision) columns (claimed_job now row.payload) now
          row db job bytes in
      ok_elim (event r written job (row.revision + 1) now bytes) _ h3
        λ done e2 h4. some-ne-none (ap (λ p. p.0) (ok-injective h4))

module _ (r : Repo) (worker : Text) (now ttl : Time) (max_running : ℕ) (exclude : List Text)
    (token : Text) {db db' : Db} (c : IsConsistent db) where
  pub claim_next-none_ok :
      claim_next r worker now ttl max_running exclude token db ≡ ok (none, db')
      → (failed : Db) × (fail_exhausted r now db ≡ ok failed) × (db' ≡ expire_operations now failed)
  unfolding claim_next
  claim_next-none_ok h =
      let (_, h1) =
        >>-eq-ok (is_empty worker || (max_running == 0) || (ttl == 0)) value_error _ h in
      ok_elim (fail_exhausted r now db) _ h1 λ failed e h2.
        let swept = expire_operations now failed in
        let c1 =
          fail_exhausted_induction r now (λ _. Unit {0}) (λ _ _ _ _ _ _ _ _. tt) db failed c tt e in
        let c2 = expire-IsConsistent now c1.0 in
        elim (Bool-cases (leb max_running (count_where (live now) swept.heads))) [
          | inl full ↦ (failed, e, ap (λ p. p.1) (ok-injective (sym (rw full at h2))))
          | inr room ↦ elim (Option-cases (candidate now exclude swept)) [
            | inl nothing ↦
                (failed, e, ap (λ p. p.1) (ok-injective (sym (rw (room, nothing) at h2))))
            | inr (row, chosen) ↦ absurd (
                claim_row-ne-none r worker now ttl token row swept c2
                  (candidate-IsCandidate now exclude swept chosen).member (rw (room, chosen) at h2))
          ]
        ]

  pub claim_next-keeps :
      (answer : Option ClaimedScanJob)
      → IsExclusive now db
      → claim_next r worker now ttl max_running exclude token db ≡ ok (answer, db')
      → IsConsistent db' × IsExclusive now db'
  claim_next-keeps none x h =
      let (failed, e, same) = claim_next-none_ok h in rw same (swept-IsExclusive r c x failed e)
  claim_next-keeps (some claim) x h = (
    claim_next-IsConsistent r c worker now ttl max_running exclude token h,
    claim_next-IsExclusive r c x worker ttl max_running exclude token h,
  )
