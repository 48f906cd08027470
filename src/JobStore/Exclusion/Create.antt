-- ===== src/JobStore/Exclusion/Create.antt =====
-- `create` of form/src/kcatta_form/job_store.py keeps leases exclusive and the heads consistent.
use kcatta.Prelude.{
  ℕ, ◌≡◌, ◌≢◌, refl, ◌∙◌, Bool, false, not, ◌||◌, ◌⊎◌, inl, inr, Option, List, Memᴰ, head, tail,
  arith, Text, ≟_iff, ◌≟◌, ◌==◌, is_empty, Bool-cases, exists_where, exists_where-false, select,
  Memᴰ-select, IsKeyed-select, text_in, length, map, ltb,
}
use kcatta.JobStore.Job.{Time, ScanJob}
use kcatta.JobStore.Rows.{ok, ok-injective, HeadRow, Db, Repo, live, has_job_id}
use kcatta.JobStore.Create.{head_job_id, make_room_for_job, evicted, room_wanted, new_head, create}
use kcatta.JobStore.Inversion.Create.{create_ok}
use kcatta.JobStore.Inversion.Worker.{Inserted}
use kcatta.JobStore.Consistent.{Mirrors, IsConsistent}
use kcatta.JobStore.Exclusion.{IsExclusive, Continues-refl, Shrinks, IsExclusive-Shrinks}

-- Room is made by keeping a selection of the heads, or there was room.
pub record Roomy (db roomy : Db) : Type 0 where
  pub heads : (roomy.heads ≡ db.heads) ⊎ ((p : HeadRow → Bool) × (roomy.heads ≡ select p db.heads))
  pub operations : roomy.operations ≡ db.operations

pub make_room-Roomy :
    (r : Repo) (db : Db) {roomy : Db} → make_room_for_job r db ≡ ok roomy → Roomy db roomy
unfolding make_room_for_job
make_room-Roomy r db h =
    let rows = evicted (room_wanted r.max_jobs (length db.heads)) db.heads in
    let kept = λ (row : HeadRow). not (text_in row.job_id (map head_job_id rows)) in
    elim (Bool-cases ((r.max_jobs == 0) || ltb (length db.heads) r.max_jobs)) [
      | inl roomy ↦
          rw (← ok-injective (rw roomy at h)) (record { heads = inl refl; operations = refl })
      | inr full ↦
          let h1 = rw full at h in
          elim (Bool-cases (is_empty rows)) [
            | inl stuck ↦ absurd (let h2 = rw stuck at h1 in cc)
            | inr some_rows ↦
                rw (← ok-injective (rw some_rows at h1))
                  (record { heads = inr (kept, refl); operations = refl })
          ]
    ]

pub Roomy-member :
    {db roomy : Db} → Roomy db roomy → {a : HeadRow} → Memᴰ a roomy.heads → Memᴰ a db.heads
Roomy-member {db} s m = elim s.heads [
  | inl e ↦ rw e at m
  | inr (p, e) ↦ (Memᴰ-select p db.heads (rw e at m)).0
]

Roomy-IsConsistent : {db roomy : Db} → Roomy db roomy → IsConsistent db → IsConsistent roomy
Roomy-IsConsistent {db} s c = record {
  keyed = elim s.heads [
    | inl e ↦ rw e c.keyed
    | inr (p, e) ↦ rw e (IsKeyed-select head_job_id p db.heads c.keyed)
  ];
  mirrors = λ h m. c.mirrors h (Roomy-member s m);
}

new_head-Mirrors :
    (job : ScanJob) (bytes : ℕ) (key fingerprint : Option Text)
    → Mirrors (new_head job bytes key fingerprint)
unfolding new_head
new_head-Mirrors job bytes key fingerprint = record {
  job_id = refl;
  state = refl;
  attempt = refl;
  max_attempts = refl;
  available = refl;
}

new_head-live :
    (now : Time) (job : ScanJob) (bytes : ℕ) (key fingerprint : Option Text)
    → live now (new_head job bytes key fingerprint) ≡ false
unfolding new_head live
new_head-live now job bytes key fingerprint = ground arith

new_head-job_id :
    (job : ScanJob) (bytes : ℕ) (key fingerprint : Option Text)
    → (new_head job bytes key fingerprint).job_id ≡ job.job_id
unfolding new_head
new_head-job_id job bytes key fingerprint = refl

pub absent_job :
    (job_id : Text) {a : HeadRow} (heads : List HeadRow)
    → exists_where (has_job_id job_id) heads ≡ false
    → Memᴰ a heads
    → a.job_id ≢ job_id
unfolding has_job_id
absent_job job_id {a} heads h m e =
    let q = exists_where-false (λ (row : HeadRow). row.job_id ≟ job_id) h m in
    let q' = (≟_iff a.job_id job_id).1 e in absurd (cc)

module _ {r : Repo} {job : ScanJob} {bytes : ℕ} {key fingerprint : Option Text} {db db' : Db}
    (done : Inserted r job bytes key fingerprint db db') where
  abbrev added : HeadRow
  added = new_head job bytes key fingerprint

  inserted-IsConsistent : IsConsistent db → IsConsistent db'
  inserted-IsConsistent c =
      let s = make_room-Roomy r db done.made in
      let kept = Roomy-IsConsistent s c in
      let fresh : (y : HeadRow) → Memᴰ y done.roomy.heads → y.job_id ≢ added.job_id = λ y m e.
        absent_job job.job_id db.heads done.absent (Roomy-member s m)
          (e ∙ new_head-job_id job bytes key fingerprint) in
      record {
        keyed = rw done.logged.heads (fresh, kept.keyed);
        mirrors = λ h m. elim (rw done.logged.heads at m) [
          | head e ↦ rw e (new_head-Mirrors job bytes key fingerprint)
          | tail k ↦ kept.mirrors h k
        ];
      }

  inserted-Shrinks : (now : Time) → Shrinks now db db'
  inserted-Shrinks now =
      let s = make_room-Roomy r db done.made in
      record {
        heads = λ b m e. elim (rw done.logged.heads at m) [
          | head same ↦
              absurd (let dead = new_head-live now job bytes key fingerprint in cc (dead, same, e))
          | tail k ↦ (b, Roomy-member s k, Continues-refl now b)
        ];
        operations = λ o t m e. (o, rw (done.logged.operations ∙ s.operations) at m, e);
      }

module _ (r : Repo) {now : Time} {db : Db} (c : IsConsistent db) (x : IsExclusive now db) where
  pub create-keeps :
      (job : ScanJob) (raw_key fingerprint : Option Text) {stored : ScanJob} {created : Bool}
      {db' : Db}
      → create r job raw_key fingerprint db ≡ ok ((stored, created), db')
      → IsConsistent db' × IsExclusive now db'
  create-keeps job raw_key fingerprint h =
      let done = create_ok r job raw_key fingerprint db h in
      elim done.outcome [
        | inl (_, _, _, _, _, same) ↦ rw same (c, x)
        | inr (_, _, _, new) ↦
            (inserted-IsConsistent new c, IsExclusive-Shrinks (inserted-Shrinks new now) x)
      ]
