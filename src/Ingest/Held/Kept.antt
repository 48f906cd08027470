-- ===== src/Ingest/Held/Kept.antt =====
-- That a task of analyzer/src/analyzer/api/ingest_queue.py is taken, and that the calls of the other
-- workers leave it so.
use kcatta.Prelude.{
  ℕ, ◌+◌, ◌<◌, ◌≡◌, ◌≢◌, refl, sym, ap, ◌∙◌, Bool, true, false, not, ◌&&◌, ◌⊎◌, inl, inr, none,
  some, List, [], ◌∷◌, ◌++◌, Memᴰ, head, tail, arith, Text, ≟_iff, ◌≟◌, if◌then◌else◌, text_in,
  select, Memᴰ-select, select-Memᴰ, update_where, update_where-Memᴰ, update_where-cases, select_nil,
  sort_on, Memᴰ-sort_on, Bool-cases, Option-cases, eq_of_some, find_where, find_where-none, ≟_refl,
}
use kcatta.Ingest.Ledger.{
  Task, TaskKind, is_final, is_processing, Config, has_key, due, oldest, first_task, creation_key,
  claimed, claim_where, claim, held, task_key, superfluous, prune_completed, submit, submitted,
  refused, over_budget, new_task, ledger_conflict, storage_capacity,
}
use kcatta.Ingest.Once.{prune-member, superfluous-final}

-- The task is in the table, and every row of its key is processing under the token and the lease.
pub record Taken (key token : Text) (until : ℕ) (rows : List Task) : Type 0 where
  pub row : Task
  pub member : Memᴰ row rows
  pub of_key : row.key ≡ key
  pub processing : (b : Task) → Memᴰ b rows → b.key ≡ key → is_processing b.state ≡ true
  pub lease : (b : Task) → Memᴰ b rows → b.key ≡ key → b.lease_until ≡ some until
  pub bears : (b : Task) → Memᴰ b rows → b.key ≡ key → b.lease_token ≡ some token

pub leased :
    (later until : ℕ) (b : Bool) (a : Task)
    → later < until
    → is_processing a.state ≡ true
    → a.lease_until ≡ some until
    → (b && due later a) ≡ false
unfolding due
leased later until b a early p e = ground (arith, early)

pub oldest-none :
    (p : Task → Bool) (rows : List Task)
    → ((b : Task) → Memᴰ b rows → p b ≡ false)
    → oldest p rows ≡ none
unfolding oldest sort_on
oldest-none p rows h = rw (select_nil p rows h) refl

pub oldest-some :
    (p : Task → Bool) (rows : List Task) {row : Task}
    → oldest p rows ≡ some row
    → Memᴰ row rows × (p row ≡ true)
unfolding oldest
oldest-some p rows h =
    Memᴰ-select p rows (Memᴰ-sort_on creation_key (select p rows) (first_member _ h))
  where
    first_member : (xs : List Task) {row : Task} → first_task xs ≡ some row → Memᴰ row xs
    first_member [] h = absurd (cc)
    first_member (x ∷ xs) h = head (sym (eq_of_some h))

pub claim_nothing :
    (key : Text) (now lease : ℕ) (token : Text) (rows : List Task)
    → oldest (λ row. has_key key row && due now row) rows ≡ none
    → claim key now lease token rows ≡ (none, rows)
unfolding claim
claim_nothing key now lease token rows e = where_nothing (has_key key) e
  where
    where_nothing :
        (p : Task → Bool)
        → oldest (λ row. p row && due now row) rows ≡ none
        → claim_where p now lease token rows ≡ (none, rows)
    where_nothing p e = rw (e, claim_where) refl

held-apart :
    (key token k t : Text) (a : Task)
    → a.key ≡ key
    → a.lease_token ≡ some token
    → (k ≢ key) ⊎ (t ≢ token)
    → held k t a ≡ false
unfolding held has_key
held-apart key token k t a same bears different =
    rw bears (ground (arith, ≟_iff a.key k, ≟_iff token t))

append_cases :
    (rows : List Task) (new : Task) {b : Task} → Memᴰ b (rows ++ new ∷ []) → Memᴰ b rows ⊎ (b ≡ new)
append_cases [] new (head e) = inr e
append_cases [] new (tail m) = elim m [ ]
append_cases (x ∷ rows) new (head e) = inl (head e)
append_cases (x ∷ rows) new (tail m) = elim (append_cases rows new m) [
  | inl k ↦ inl (tail k)
  | inr e ↦ inr e
]

append_old : {b : Task} {rows : List Task} (new : Task) → Memᴰ b rows → Memᴰ b (rows ++ new ∷ [])
append_old new (head e) = head e
append_old new (tail m) = tail (append_old new m)

module _ {key token : Text} {until : ℕ} where
  -- Updates of rows that are not of the key.
  Taken-update :
      (p : Task → Bool) (f : Task → Task) (rows : List Task)
      → ((a : Task) → (f a).key ≡ a.key)
      → Taken key token until rows
      → ((a : Task) → Memᴰ a rows → a.key ≡ key → p a ≡ false)
      → Taken key token until (update_where p f rows)
  Taken-update p f rows keys h apart =
      let old : (b : Task) → Memᴰ b (update_where p f rows) → b.key ≡ key → Memᴰ b rows = λ b m e.
        elim (update_where-cases task_key p f (λ a _. keys a) rows m) [
          | inl (k, _) ↦ k
          | inr (a, k, q, new) ↦ absurd (
              let missed = apart a k (sym (keys a) ∙ (ap task_key (sym new) ∙ e)) in cc (q, missed))
        ] in
      let kept : Memᴰ (if p h.row then f h.row else h.row) (update_where p f rows) =
        update_where-Memᴰ p f h.member in
      record {
        row = h.row;
        member = rw (apart h.row h.member h.of_key) at kept;
        of_key = h.of_key;
        processing = λ b m e. h.processing b (old b m e) e;
        lease = λ b m e. h.lease b (old b m e) e;
        bears = λ b m e. h.bears b (old b m e) e;
      }

  pub Taken-held :
      (k t : Text) (f : Task → Task) (rows : List Task)
      → ((a : Task) → (f a).key ≡ a.key)
      → (k ≢ key) ⊎ (t ≢ token)
      → Taken key token until rows
      → Taken key token until (update_where (held k t) f rows)
  Taken-held k t f rows keys different h =
      Taken-update (held k t) f rows keys h
        (λ a m e. held-apart key token k t a e (h.bears a m e) different)

  pub Taken-prune :
      (c : Config) (rows : List Task)
      → Taken key token until rows
      → Taken key token until (prune_completed c rows)
  unfolding prune_completed
  Taken-prune c rows h =
      let stays : text_in h.row.key (superfluous c rows) ≡ false =
        elim (Bool-cases (text_in h.row.key (superfluous c rows))) [
          | inr out ↦ out
          | inl inside ↦
              let (row, k, same, final) = superfluous-final c rows h.row.key inside in
              let busy = h.processing row k (same ∙ h.of_key) in absurd (both_states row final busy)
        ] in
      record {
        row = h.row;
        member =
            select-Memᴰ (λ (row : Task). not (text_in row.key (superfluous c rows))) h.member
              (rw stays refl);
        of_key = h.of_key;
        processing = λ b m e. h.processing b (prune-member c rows m) e;
        lease = λ b m e. h.lease b (prune-member c rows m) e;
        bears = λ b m e. h.bears b (prune-member c rows m) e;
      }
    where
      both_states : (a : Task) → is_final a.state ≡ true → is_processing a.state ≡ true → ⊥
      both_states a p q = ground arith

  -- A row that may be claimed before the lease ends is of another key.
  pub due-other :
      (b : Bool) (now : ℕ) (rows : List Task)
      → Taken key token until rows
      → now < until
      → (a : Task) → Memᴰ a rows
      → (b && due now a) ≡ true
      → a.key ≢ key
  due-other b now rows h early a m q e =
      let free = leased now until b a early (h.processing a m e) (h.lease a m e) in cc (q, free)

  pub Taken-claim :
      (p : Task → Bool) (now lease : ℕ) (t : Text) (rows : List Task)
      → now < until
      → Taken key token until rows
      → Taken key token until (claim_where p now lease t rows).1
  unfolding has_key claim_where
  Taken-claim p now lease t rows early h =
      elim (Option-cases (oldest (λ row. p row && due now row) rows)) [
        | inl e ↦ rw (claim_where, e) h
        | inr (row, e) ↦
            let (m, q) = oldest-some (λ row. p row && due now row) rows e in
            let other = due-other (p row) now rows h early row m q in
            rw (claim_where, e)
              (Taken-update (has_key row.key) (claimed now lease t) rows (λ _. refl) h
                (λ a _ same. has_key-other row.key a (λ k. other (sym k ∙ same))))
      ]
    where
      has_key-other : (k : Text) (a : Task) → a.key ≢ k → has_key k a ≡ false
      has_key-other k a n = ground (arith, ≟_iff a.key k)

  pub Taken-submit :
      (c : Config) (k : Text) (kind : TaskKind) (envelope_id payload : Text) (now : ℕ) (task : Task)
      (created : Bool) (rows rows' : List Task)
      → Taken key token until rows
      → submit c k kind envelope_id payload now rows ≡ submitted task created rows'
      → Taken key token until rows'
  unfolding submit has_key
  Taken-submit c k kind envelope_id payload now task created rows rows' h e =
      elim (Option-cases (find_where (has_key k) rows)) [
        | inr (row, found) ↦ rw (← conflict row (rw (found, submit) at e)) h
        | inl missing ↦
            let fresh = find_where-none (has_key k) missing h.member in
            rw (← room (rw (missing, submit) at e))
              (added (new_task c k kind envelope_id payload now) fresh)
      ]
    where
      conflict :
          (row : Task)
          → (if not (is_final row.state) && not (row.payload_sha256 ≟ c.sha256 payload)
              then refused ledger_conflict
              else submitted row false rows)
            ≡ submitted task created rows'
          → rows ≡ rows'
      conflict row e = ground arith

      room :
          (if over_budget c payload rows
              then refused storage_capacity
              else submitted
                  (new_task c k kind envelope_id payload now)
                  true
                  (rows ++ new_task c k kind envelope_id payload now ∷ []))
            ≡ submitted task created rows'
          → (rows ++ new_task c k kind envelope_id payload now ∷ []) ≡ rows'
      room e = ground arith

      added :
          (new : Task) → has_key new.key h.row ≡ false → Taken key token until (rows ++ new ∷ [])
      added new fresh =
          let old : (b : Task) → Memᴰ b (rows ++ new ∷ []) → b.key ≡ key → Memᴰ b rows = λ b m e.
            elim (append_cases rows new m) [
              | inl k ↦ k
              | inr q ↦
                  let same : h.row.key ≡ new.key = h.of_key ∙ (sym e ∙ ap task_key q) in
                  absurd (let yes = (≟_iff h.row.key new.key).1 same in cc (yes, fresh))
            ] in
          record {
            row = h.row;
            member = append_old new h.member;
            of_key = h.of_key;
            processing = λ b m e. h.processing b (old b m e) e;
            lease = λ b m e. h.lease b (old b m e) e;
            bears = λ b m e. h.bears b (old b m e) e;
          }

pub claimed-Taken :
    (p : Task → Bool) (now lease : ℕ) (token : Text) (rows : List Task) (task : Task)
    (rows' : List Task)
    → claim_where p now lease token rows ≡ (some task, rows')
    → Taken task.key token (now + lease) rows'
unfolding claim_where has_key
claimed-Taken p now lease token rows task rows' h =
    elim (Option-cases (oldest (λ row. p row && due now row) rows)) [
      | inl e ↦ absurd (let h' = rw (e, claim_where) at h in ground arith)
      | inr (row, e) ↦
          let h' = rw (e, claim_where) at h in
          let same : claimed now lease token row ≡ task = eq_of_some (ap (λ q. q.0) h') in
          let table : update_where (has_key row.key) (claimed now lease token) rows ≡ rows' =
            ap (λ q. q.1) h' in
          let (m, _) = oldest-some (λ row. p row && due now row) rows e in
          let is_new : (b : Task)
              → Memᴰ b rows'
              → b.key ≡ task.key
              → (a : Task) × (b ≡ claimed now lease token a) =
            λ b k q.
              elim (update_where-cases task_key (has_key row.key) (claimed now lease token)
                (λ a _. refl) rows (rw (← table) at k)) [
                  | inl (_, out) ↦ absurd (
                      let yes = (≟_iff b.key row.key).1 (q ∙ ap task_key (sym same)) in
                      cc (yes, out))
                  | inr (a, _, _, new) ↦ (a, new)
                ] in
          let kept : Memᴰ (if has_key row.key row then claimed now lease token row else row)
              (update_where (has_key row.key) (claimed now lease token) rows) =
            update_where-Memᴰ (has_key row.key) (claimed now lease token) m in
          record {
            row = claimed now lease token row;
            member = rw (← table) (rw (≟_refl row.key) at kept);
            of_key = ap task_key same;
            processing = λ b k q. let (a, e) = is_new b k q in rw e refl;
            lease = λ b k q. let (a, e) = is_new b k q in rw e refl;
            bears = λ b k q. let (a, e) = is_new b k q in rw e refl;
          }
    ]
