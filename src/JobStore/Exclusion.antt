-- ===== src/JobStore/Exclusion.antt =====
-- At most one holder for each target: the leases of jobs and of direct operations in
-- form/src/kcatta_form/job_store.py exclude one another while they last.
pub mod Jobs
pub mod Grants
pub mod Direct
pub mod Leases
pub mod Create
pub mod Derived
pub mod Polls
use kcatta.Prelude.{
  ℕ, ◌≤◌, ◌≡◌, refl, sym, ◌∙◌, ap, Bool, true, false, inl, inr, Memᴰ, arith, Text, Bool-cases,
}
use kcatta.JobStore.Job.{Time, is_active}
use kcatta.JobStore.Rows.{HeadRow, OperationRow, Db, live, after}
use kcatta.JobStore.Claim.{operation_on}

-- At time `now` no two jobs of one target hold a lease that lasts, and none does beside a direct
-- operation on its target.
pub record IsExclusive (now : Time) (db : Db) : Type 0 where
  pub jobs :
      (a b : HeadRow)
      → Memᴰ a db.heads
      → Memᴰ b db.heads
      → live now a ≡ true
      → live now b ≡ true
      → a.target_id ≡ b.target_id
      → a.job_id ≡ b.job_id
  pub direct :
      (a : HeadRow) (o : OperationRow)
      → Memᴰ a db.heads
      → Memᴰ o db.operations
      → live now a ≡ true
      → operation_on now a.target_id o ≡ false

-- `b` stands for a row `a` that was there, and lasts no longer.
pub record Continues (now : Time) (a b : HeadRow) : Type 0 where
  pub job_id : b.job_id ≡ a.job_id
  pub target_id : b.target_id ≡ a.target_id
  pub lasts : live now b ≡ true → live now a ≡ true

-- The live leases of `db'` were live in `db`.
pub record Shrinks (now : Time) (db db' : Db) : Type 0 where
  pub heads :
      (b : HeadRow)
      → Memᴰ b db'.heads
      → live now b ≡ true
      → (a : HeadRow) × Memᴰ a db.heads × Continues now a b
  pub operations :
      (o : OperationRow) (target_id : Text)
      → Memᴰ o db'.operations
      → operation_on now target_id o ≡ true
      → (o' : OperationRow) × Memᴰ o' db.operations × (operation_on now target_id o' ≡ true)

pub live_earlier :
    (now later : Time) (h : HeadRow) → now ≤ later → live later h ≡ true → live now h ≡ true
unfolding live
live_earlier now later h le e = ground arith

pub operation_on_earlier :
    (now later : Time) (target_id : Text) (o : OperationRow)
    → now ≤ later
    → operation_on later target_id o ≡ true
    → operation_on now target_id o ≡ true
unfolding operation_on
operation_on_earlier now later target_id o le e = ground arith

-- As time passes, leases only end.
pub IsExclusive-later :
    {now later : Time} {db : Db} → now ≤ later → IsExclusive now db → IsExclusive later db
IsExclusive-later {now} {later} le x = record {
  jobs = λ a b m n p q e.
      x.jobs a b m n (live_earlier now later a le p) (live_earlier now later b le q) e;
  direct = λ a o m n p. elim (Bool-cases (operation_on later a.target_id o)) [
    | inl on ↦ absurd (
        let on' = operation_on_earlier now later a.target_id o le on in
        let off = x.direct a o m n (live_earlier now later a le p) in cc)
    | inr off ↦ off
  ];
}

pub IsExclusive-Shrinks :
    {now : Time} {db db' : Db} → Shrinks now db db' → IsExclusive now db → IsExclusive now db'
IsExclusive-Shrinks {now} {db} {db'} s x = record {
  jobs = λ a b m n p q e.
      let (a', m', ca) = s.heads a m p in
      let (b', n', cb) = s.heads b n q in
      let same =
        x.jobs a' b' m' n' (ca.lasts p) (cb.lasts q) (cc (ca.target_id, cb.target_id, e)) in
      cc (ca.job_id, cb.job_id, same);
  direct = λ a o m n p. elim (Bool-cases (operation_on now a.target_id o)) [
    | inl on ↦ absurd (
        let (a', m', ca) = s.heads a m p in
        let (o', n', on') = s.operations o a.target_id n on in
        let off = x.direct a' o' m' n' (ca.lasts p) in cc (ca.target_id, on', off))
    | inr off ↦ off
  ];
}

pub Continues-refl : (now : Time) (a : HeadRow) → Continues now a a
Continues-refl now a = record { job_id = refl; target_id = refl; lasts = λ e. e }

pub Shrinks-refl : (now : Time) (db : Db) → Shrinks now db db
Shrinks-refl now db = record {
  heads = λ b m e. (b, m, Continues-refl now b);
  operations = λ o t m e. (o, m, e);
}
