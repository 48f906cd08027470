-- ===== src/JobStore/Promises/Choice/May.antt =====
-- Which heads `claim_next` of form/src/kcatta_form/job_store.py may claim, and that the WHERE clause of the
-- claim says so.
use kcatta.Prelude.{
  ◌≤◌, ◌<◌, ◌≡◌, ◌≢◌, refl, sym, ◌↔◌, Bool-cases, true, false, not, ◌&&◌, ◌||◌, ◌⊎◌, inl, inr,
  Option, none, some, List, [], ◌∷◌, Memᴰ, head, tail, arith, Text, ◌≟◌, ≟_iff, ltb, leb, text_in,
  exists_where, exists_where-false, exists_where_zero, Memᴰ-select, select-Memᴰ,
}
use kcatta.JobStore.Job.{Time, pending, retrying, running, cancelling, is_active, is_waiting}
use kcatta.JobStore.Rows.{HeadRow, OperationRow, Db, null_or_due, live}
use kcatta.JobStore.Claim.{claimable, target_busy, operation_on, expire_operations}

-- The time has come, or none is set.
abbrev pub Due : Option Time → Time → Type 0
Due none now = Unit
Due (some t) now = t ≤ now

-- The job waits, has attempts left and is due, or it is active and its lease is over.
abbrev pub IsOpen : Time → HeadRow → Type 0
IsOpen now h =
    ((h.state ≡ pending) ⊎ (h.state ≡ retrying))
      × (h.attempt < h.max_attempts)
      × Due h.available_at_us now
    ⊎ ((h.state ≡ running) ⊎ (h.state ≡ cancelling)) × Due h.lease_expires_at_us now

-- A head may be claimed: its job is open and not excluded, no other job of its target is active under a
-- lease that lasts, and no direct operation on its target lasts.
pub record MayClaim (now : Time) (exclude : List Text) (db : Db) (h : HeadRow) : Type 0 where
  pub open_job : IsOpen now h
  pub idle_target :
      (other : HeadRow)
      → Memᴰ other db.heads
      → other.target_id ≡ h.target_id
      → other.job_id ≢ h.job_id
      → (other.state ≡ running) ⊎ (other.state ≡ cancelling)
      → Due other.lease_expires_at_us now
  pub no_operation :
      (o : OperationRow)
      → Memᴰ o db.operations
      → o.target_id ≡ h.target_id
      → o.lease_expires_at_us ≤ now
  pub included : (id : Text) → Memᴰ id exclude → id ≢ h.job_id

claimable_state_iff :
    (now : Time) (h : HeadRow)
    → (((is_waiting h.state && ltb h.attempt h.max_attempts && null_or_due h.available_at_us now)
          || (is_active h.state && null_or_due h.lease_expires_at_us now))
        ≡ true)
      ↔ IsOpen now h
claimable_state_iff now h = ground arith

text_in-false : (a : Text) (xs : List Text) → text_in a xs ≡ false → (x : Text) → Memᴰ x xs → x ≢ a
unfolding text_in
text_in-false a [] h x m = elim m [ ]
text_in-false a (y ∷ ys) h x (head e) = ground (arith, ≟_iff a y)
text_in-false a (y ∷ ys) h x (tail m) = text_in-false a ys (ground arith) x m

text_in_missing :
    (a : Text) (xs : List Text) → ((x : Text) → Memᴰ x xs → x ≢ a) → text_in a xs ≡ false
unfolding text_in
text_in_missing a [] h = refl
text_in_missing a (y ∷ ys) h = elim (Bool-cases (a ≟ y)) [
  | inl e ↦ absurd (h y (head refl) (sym ((≟_iff a y).0 e)))
  | inr e ↦ rw e (text_in_missing a ys (λ x m. h x (tail m)))
]

busy-false :
    (now : Time) (h other : HeadRow)
    → target_busy now h other ≡ false
    → other.target_id ≡ h.target_id
    → other.job_id ≢ h.job_id
    → (other.state ≡ running) ⊎ (other.state ≡ cancelling)
    → Due other.lease_expires_at_us now
unfolding target_busy live
busy-false now h other e same different active =
    ground (arith, ≟_iff other.target_id h.target_id, ≟_iff other.job_id h.job_id)

busy_unless :
    (now : Time) (h other : HeadRow)
    → (other.target_id ≡ h.target_id
        → other.job_id ≢ h.job_id
        → (other.state ≡ running) ⊎ (other.state ≡ cancelling)
        → Due other.lease_expires_at_us now)
    → target_busy now h other ≡ false
unfolding target_busy live
busy_unless now h other k =
    ground (arith, k, ≟_iff other.target_id h.target_id, ≟_iff other.job_id h.job_id)

operation_on-false :
    (now : Time) (target : Text) (o : OperationRow)
    → operation_on now target o ≡ false
    → o.target_id ≡ target
    → o.lease_expires_at_us ≤ now
unfolding operation_on
operation_on-false now target o e same = ground (arith, ≟_iff o.target_id target)

operation_unless :
    (now : Time) (target : Text) (o : OperationRow)
    → (o.target_id ≡ target → o.lease_expires_at_us ≤ now)
    → operation_on now target o ≡ false
unfolding operation_on
operation_unless now target o k = ground (arith, k, ≟_iff o.target_id target)

pub claimable-MayClaim :
    (now : Time) (exclude : List Text) (db : Db) (h : HeadRow)
    → claimable now exclude db h ≡ true
    → MayClaim now exclude db h
unfolding claimable
claimable-MayClaim now exclude db h e =
    let busy : exists_where (target_busy now h) db.heads ≡ false = ground arith in
    let held : exists_where (operation_on now h.target_id) db.operations ≡ false = ground arith in
    record {
      open_job = (claimable_state_iff now h).0 (ground arith);
      idle_target =
          λ other m. busy-false now h other (exists_where-false (target_busy now h) busy m);
      no_operation = λ o m.
          operation_on-false now h.target_id o
            (exists_where-false (operation_on now h.target_id) held m);
      included = text_in-false h.job_id exclude (ground arith);
    }

pub MayClaim-claimable :
    (now : Time) (exclude : List Text) (db : Db) (h : HeadRow)
    → MayClaim now exclude db h
    → claimable now exclude db h ≡ true
unfolding claimable
MayClaim-claimable now exclude db h k =
    let idle =
      exists_where_zero (target_busy now h) db.heads
        λ other m. busy_unless now h other (k.idle_target other m) in
    let free =
      exists_where_zero (operation_on now h.target_id) db.operations
        λ o m. operation_unless now h.target_id o (k.no_operation o m) in
    let out = text_in_missing h.job_id exclude k.included in
    let is_open = (claimable_state_iff now h).1 k.open_job in rw (is_open, idle, free, out) refl

-- The direct operations that a sweep removes are over.
pub swept-MayClaim :
    (now : Time) {exclude : List Text} (db : Db) {h : HeadRow}
    → MayClaim now exclude db h
    → MayClaim now exclude (expire_operations now db) h
unfolding expire_operations
swept-MayClaim now db k = record {
  open_job = k.open_job;
  idle_target = k.idle_target;
  no_operation = λ o m.
      k.no_operation o (Memᴰ-select (λ o. not (leb o.lease_expires_at_us now)) db.operations m).0;
  included = k.included;
}

pub spared :
    (now : Time) {exclude : List Text} (db : Db) {h : HeadRow}
    → MayClaim now exclude (expire_operations now db) h
    → MayClaim now exclude db h
unfolding expire_operations
spared now db k = record {
  open_job = k.open_job;
  idle_target = k.idle_target;
  no_operation = λ o m same. elim (Bool-cases (leb o.lease_expires_at_us now)) [
    | inl e ↦ ground arith
    | inr e ↦
        k.no_operation o
          (select-Memᴰ (λ (o : OperationRow). not (leb o.lease_expires_at_us now)) m (rw e refl))
          same
  ];
  included = k.included;
}
