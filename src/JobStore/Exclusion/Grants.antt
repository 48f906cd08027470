-- ===== src/JobStore/Exclusion/Grants.antt =====
-- The operations of form/src/kcatta_form/job_store.py that give or extend a job's lease, `claim_next`
-- and `renew`, keep leases exclusive.
use kcatta.Prelude.{
  ℕ, ◌+◌, ◌≡◌, refl, sym, ◌∙◌, ap, true, false, not, ◌⊎◌, inl, inr, some, List, Memᴰ, arith, Text,
  leb, ≟_iff, exists_where, exists_where-false, update_where-cases, Memᴰ-select, IsKeyed-unique,
}
use kcatta.JobStore.Job.{Time}
use kcatta.JobStore.Rows.{ok, HeadRow, OperationRow, Db, Repo, live}
use kcatta.JobStore.Create.{head_job_id}
use kcatta.JobStore.Claim.{
  operation_on, target_busy, claimable, fail_exhausted, expire_operations, ClaimedScanJob,
  claim_next,
}
use kcatta.JobStore.Lease.{owns, is_claimed, renew}
use kcatta.JobStore.Inversion.Holder.{renew_ok}
use kcatta.JobStore.Inversion.Worker.{claim_next_ok}
use kcatta.JobStore.Consistent.{IsConsistent}
use kcatta.JobStore.Consistent.Worker.{fail_exhausted_induction}
use kcatta.JobStore.Consistent.Holder.{owns-job_id}
use kcatta.JobStore.Consistent.Claim.{candidate-IsCandidate, expire-IsConsistent, claimed-heads}
use kcatta.JobStore.Exclusion.{IsExclusive, Continues-refl, Shrinks, IsExclusive-Shrinks}
use kcatta.JobStore.Exclusion.Jobs.{unleased-Continues}

-- One row takes a lease on a target where nobody else holds one.
record Grants (now : Time) (row new : HeadRow) (db db' : Db) : Type 0 where
  heads : {b : HeadRow} → Memᴰ b db'.heads → Memᴰ b db.heads ⊎ (b ≡ new)
  operations : db'.operations ≡ db.operations
  job_id : new.job_id ≡ row.job_id
  target_id : new.target_id ≡ row.target_id
  alone :
      (a : HeadRow)
      → Memᴰ a db.heads
      → live now a ≡ true
      → a.target_id ≡ row.target_id
      → a.job_id ≡ row.job_id
  no_operation :
      (o : OperationRow) → Memᴰ o db.operations → operation_on now row.target_id o ≡ false

Grants-IsExclusive :
    {now : Time} {row new : HeadRow} {db db' : Db}
    → Grants now row new db db'
    → IsExclusive now db
    → IsExclusive now db'
Grants-IsExclusive {now} {row} {new} {db} {db'} g x = record {
  jobs = λ a b m n p q e. elim (g.heads m) [
    | inl old ↦ elim (g.heads n) [
      | inl old' ↦ x.jobs a b old old' p q e
      | inr same ↦
          let target = ap (λ (h : HeadRow). h.target_id) same in
          let job = ap (λ (h : HeadRow). h.job_id) same in
          g.alone a old p (e ∙ (target ∙ g.target_id)) ∙ sym (job ∙ g.job_id)
    ]
    | inr same ↦
        let target = ap (λ (h : HeadRow). h.target_id) same in
        let job = ap (λ (h : HeadRow). h.job_id) same in
        elim (g.heads n) [
          | inl old' ↦ (job ∙ g.job_id) ∙ sym (g.alone b old' q (sym e ∙ (target ∙ g.target_id)))
          | inr same' ↦ job ∙ sym (ap (λ (h : HeadRow). h.job_id) same')
        ]
  ];
  direct = λ a o m n p.
      let n' = rw g.operations at n in
      elim (g.heads m) [
        | inl old ↦ x.direct a o old n' p
        | inr same ↦
            let target = ap (λ (h : HeadRow). h.target_id) same ∙ g.target_id in
            rw target (g.no_operation o n')
      ];
}

not_busy :
    (now : Time) (row a : HeadRow)
    → target_busy now row a ≡ false
    → live now a ≡ true
    → a.target_id ≡ row.target_id
    → a.job_id ≡ row.job_id
unfolding target_busy
not_busy now row a h l e =
    ground (arith, ≟_iff a.job_id row.job_id, ≟_iff a.target_id row.target_id)

claimable-parts :
    (now : Time) (exclude : List Text) (db : Db) (row : HeadRow)
    → claimable now exclude db row ≡ true
    → (exists_where (target_busy now row) db.heads ≡ false)
      × (exists_where (operation_on now row.target_id) db.operations ≡ false)
unfolding claimable
claimable-parts now exclude db row h = ground arith

pub owns-parts :
    (r : Repo) (claim : ClaimedScanJob) (now : Time) (db : Db) (row : HeadRow)
    → owns r claim now db row ≡ true
    → (live now row ≡ true) × (exists_where (operation_on now row.target_id) db.operations ≡ false)
unfolding owns
owns-parts r claim now db row h = ground arith

pub is_claimed-job_id :
    (r : Repo) (claim : ClaimedScanJob) (row : HeadRow)
    → is_claimed r claim row ≡ true
    → row.job_id ≡ claim.job.job_id
unfolding is_claimed
is_claimed-job_id r claim row h = (≟_iff row.job_id claim.job.job_id).0 (ground arith)

module _ (r : Repo) {now : Time} {db : Db} (c : IsConsistent db) (x : IsExclusive now db) where
  pub renew-IsExclusive :
      (claim : ClaimedScanJob) (ttl : Time) {claim' : ClaimedScanJob} {db' : Db}
      → renew r claim now ttl db ≡ ok (claim', db')
      → IsExclusive now db'
  renew-IsExclusive claim ttl {claim'} {db'} h =
      let done = renew_ok r claim now ttl db h in
      let same = owns-job_id r claim now db done.row done.owned in
      let (alive, free) = owns-parts r claim now db done.row done.owned in
      let extend = λ (h : HeadRow). record h {
        lease_expires_at_us = some (now + ttl);
        heartbeat_at_us = some now;
      } in
      Grants-IsExclusive {row = done.row} {new = extend done.row}
        (record {
          heads = λ m.
              elim (update_where-cases head_job_id (is_claimed r claim) extend (λ a _. refl)
                db.heads (rw done.heads at m)) [
                  | inl old ↦ inl old.0
                  | inr (a, k, q, e) ↦ inr (
                      e
                      ∙ ap extend (
                          IsKeyed-unique head_job_id db.heads c.keyed a done.row k done.member
                            (is_claimed-job_id r claim a q ∙ sym same)))
                ];
          operations = done.operations;
          job_id = refl;
          target_id = refl;
          alone = λ a m l e. x.jobs a done.row m done.member l alive e;
          no_operation = λ o n. exists_where-false (operation_on now done.row.target_id) free n;
        })
        x

  failed-IsExclusive :
      (swept : Db) → fail_exhausted r now db ≡ ok swept → IsConsistent swept × IsExclusive now swept
  failed-IsExclusive swept h =
      fail_exhausted_induction r now (IsExclusive now)
        (λ row db db' _ m _ failed y.
          IsExclusive-Shrinks
            (record {
              heads = λ b k e. elim (failed.heads k) [
                | inl old ↦ (b, old, Continues-refl now b)
                | inr new ↦ (row, m, rw new (unleased-Continues now row _ refl refl refl))
              ];
              operations = λ o t k e. (o, rw failed.operations at k, e);
            })
            y)
        db swept c x h

pub expire-Shrinks : (now : Time) (db : Db) → Shrinks now db (expire_operations now db)
unfolding expire_operations
expire-Shrinks now db = record {
  heads = λ b m e. (b, m, Continues-refl now b);
  operations =
      λ o t m e. (o, (Memᴰ-select (λ o. not (leb o.lease_expires_at_us now)) db.operations m).0, e);
}

module _ (r : Repo) {now : Time} {db : Db} (c : IsConsistent db) (x : IsExclusive now db) where
  pub swept-IsExclusive :
      (swept : Db)
      → fail_exhausted r now db ≡ ok swept
      → IsConsistent (expire_operations now swept) × IsExclusive now (expire_operations now swept)
  swept-IsExclusive swept h =
      let (c', x') = failed-IsExclusive r c x swept h in
      (expire-IsConsistent now c', IsExclusive-Shrinks (expire-Shrinks now swept) x')

  pub claim_next-IsExclusive :
      (worker : Text) (ttl : Time) (max_running : ℕ) (exclude : List Text) (token : Text)
      {claim : ClaimedScanJob} {db' : Db}
      → claim_next r worker now ttl max_running exclude token db ≡ ok (some claim, db')
      → IsExclusive now db'
  claim_next-IsExclusive worker ttl max_running exclude token h =
      let polled = claim_next_ok r worker now ttl max_running exclude token db h in
      let (c', x') = swept-IsExclusive polled.swept polled.failed in
      let chosen = candidate-IsCandidate now exclude _ polled.chosen in
      let row = polled.row in
      let (idle, free) = claimable-parts now exclude _ row chosen.fits in
      Grants-IsExclusive {row = row}
        (record {
          heads = λ m. elim (claimed-heads polled.claimed c' chosen.member m) [
            | inl old ↦ inl old.0
            | inr e ↦ inr e
          ];
          operations = polled.claimed.written.operations;
          job_id = refl;
          target_id = refl;
          alone =
              λ a m l e. not_busy now row a (exists_where-false (target_busy now row) idle m) l e;
          no_operation = λ o n. exists_where-false (operation_on now row.target_id) free n;
        })
        x'
