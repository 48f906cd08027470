-- ===== src/Ingest/Once.antt =====
-- Each claim of analyzer/src/analyzer/api/ingest_queue.py settles its task at most once, and unfinished
-- tasks stay in the ledger.
use kcatta.Prelude.{
  ℕ, ◌≡◌, refl, sym, Bool, true, false, not, inl, inr, Option, List, [], ◌∷◌, Memᴰ, head, tail,
  arith, Text, ≟_iff, ◌≟◌, ◌==◌, if◌then◌else◌, text_in, map, drop, Memᴰ-drop, Memᴰ-reverse,
  reverse, select, Memᴰ-select, select-Memᴰ, update_where, update_where-Memᴰ, update_where-cases,
  count_where, count_where_zero, sort_on, Memᴰ-sort_on, Bool-cases, IsKeyed, IsKeyed-unique,
  IsKeyed-update_where,
}
use kcatta.Ingest.Ledger.{
  Task, is_final, is_processing, Config, held, extend_lease, Outcome, final_state, task_key,
  update_key, superfluous, prune_completed, completed, complete_task, released, retry,
}

-- Nobody holds the task of the key under the token.
abbrev Unheld : Text → Text → List Task → Type 0
Unheld key token rows = (b : Task) → Memᴰ b rows → held key token b ≡ false

idle_unheld :
    (key token : Text) (a : Task) → is_processing a.state ≡ false → held key token a ≡ false
unfolding held
idle_unheld key token a h = ground arith

settled :
    (key token : Text) (f : Task → Task) (rows : List Task)
    → ((a : Task) → (f a).key ≡ a.key)
    → ((a : Task) → is_processing (f a).state ≡ false)
    → Unheld key token (update_where (held key token) f rows)
settled key token f rows keys idle b m =
    elim (update_where-cases task_key (held key token) f (λ a _. keys a) rows m) [
      | inl (_, e) ↦ e
      | inr (a, _, _, e) ↦ rw e (idle_unheld key token (f a) (idle a))
    ]

pub prune-member :
    (c : Config) (rows : List Task) {b : Task} → Memᴰ b (prune_completed c rows) → Memᴰ b rows
unfolding prune_completed
prune-member c rows m = (Memᴰ-select (λ row. not (text_in row.key (superfluous c rows))) rows m).0

-- The three operations that ask for the token refuse it.
pub record Refused (c : Config) (key token : Text) (rows : List Task) : Type 0 where
  pub extend : (now lease : ℕ) → (extend_lease key token now lease rows).0 ≡ false
  pub retries : (reason : Text) (delay now : ℕ) → (retry key token reason delay now rows).0 ≡ false
  pub completes :
      (status : Outcome) (records : ℕ) (truncated : Bool) (reason : Option Text) (now : ℕ)
      → (complete_task c key token status records truncated reason now rows).0 ≡ false

Unheld-Refused :
    (c : Config) (key token : Text) (rows : List Task)
    → Unheld key token rows
    → Refused c key token rows
unfolding extend_lease retry complete_task
Unheld-Refused c key token rows h =
    let zero_rows = count_where_zero (held key token) rows h in
    record {
      extend = λ now lease. rw zero_rows refl;
      retries = λ reason delay now. rw zero_rows refl;
      completes = λ status records truncated reason now. rw zero_rows refl;
    }

-- The end of a claimed task's processing settles it once: after a completion or a retry under a key and
-- a token, whatever it answered, the ledger refuses to extend, to retry and to complete under the same
-- key and token.
pub settles-once :
    (c : Config) (key token : Text) (rows : List Task)
    → ((status : Outcome) (records : ℕ) (truncated : Bool) (reason : Option Text) (now : ℕ)
        → Refused c key token
            (complete_task c key token status records truncated reason now rows).1)
      × ((reason : Text) (delay now : ℕ)
          → Refused c key token (retry key token reason delay now rows).1)
unfolding complete_task retry
settles-once c key token rows = (
  λ status records truncated reason now.
      let f = completed status records truncated reason now in
      let updated = update_where (held key token) f rows in
      let free : Unheld key token updated =
        settled key token f rows (λ a. refl) (λ a. final_idle status) in
      Unheld-Refused c key token _ (
        if_unheld key token (count_where (held key token) rows == 0) updated
          (prune_completed c updated) free (λ b m. free b (prune-member c updated m))),
  λ reason delay now.
      Unheld-Refused c key token _
        (settled key token (released reason delay now) rows (λ a. refl) (λ a. refl)),
)
  where
    final_idle : (status : Outcome) → is_processing (final_state status) ≡ false
    final_idle Outcome.complete = refl
    final_idle Outcome.partial = refl

    if_unheld :
        (key token : Text) (b : Bool) (xs ys : List Task)
        → Unheld key token xs
        → Unheld key token ys
        → Unheld key token (if b then xs else ys)
    if_unheld key token true xs ys h k = h
    if_unheld key token false xs ys h k = k

pub text_in-keys :
    (key : Text) (rows : List Task)
    → text_in key (map task_key rows) ≡ true
    → (row : Task) × Memᴰ row rows × (row.key ≡ key)
unfolding text_in
text_in-keys key [] h = absurd (cc)
text_in-keys key (row ∷ rows) h = elim (Bool-cases (key ≟ row.key)) [
  | inl e ↦ (row, head refl, sym ((≟_iff key row.key).0 e))
  | inr e ↦ let (other, m, q) = text_in-keys key rows (rw e at h) in (other, tail m, q)
]

pub superfluous-final :
    (c : Config) (rows : List Task) (key : Text)
    → text_in key (superfluous c rows) ≡ true
    → (row : Task) × Memᴰ row rows × (row.key ≡ key) × (is_final row.state ≡ true)
unfolding superfluous
superfluous-final c rows key h =
    let finals = select (λ (row : Task). is_final row.state) rows in
    let (row, m, e) =
      text_in-keys key (drop c.max_completed (reverse (sort_on update_key finals))) h in
    let (k, q) =
      Memᴰ-select (λ (row : Task). is_final row.state) rows
        (Memᴰ-sort_on update_key finals (Memᴰ-reverse _ (Memᴰ-drop c.max_completed _ m))) in
    (row, k, e, q)

prune-keeps :
    (c : Config) (rows : List Task)
    → IsKeyed task_key rows
    → (a : Task) → Memᴰ a rows
    → is_final a.state ≡ false
    → Memᴰ a (prune_completed c rows)
unfolding prune_completed
prune-keeps c rows keyed a m e =
    select-Memᴰ (λ row. not (text_in row.key (superfluous c rows))) m
      (elim (Bool-cases (text_in a.key (superfluous c rows))) [
        | inr out ↦ rw out refl
        | inl inside ↦
            let (row, k, same, final) = superfluous-final c rows a.key inside in
            let one = IsKeyed-unique task_key rows keyed row a k m same in
            absurd (let final' : is_final a.state ≡ true = rw (← one) final in cc)
      ])

-- The completion of one task, whatever it answers, leaves every task as it was that has not ended and
-- is not held under the key and the token, in a ledger whose keys are unique.
pub complete_task-keeps :
    (c : Config) (key token : Text) (status : Outcome) (records : ℕ) (truncated : Bool)
    (reason : Option Text) (now : ℕ) (rows : List Task)
    → IsKeyed task_key rows
    → (a : Task) → Memᴰ a rows
    → is_final a.state ≡ false
    → held key token a ≡ false
    → Memᴰ a (complete_task c key token status records truncated reason now rows).1
unfolding complete_task
complete_task-keeps c key token status records truncated reason now rows keyed a m e other =
    let f = completed status records truncated reason now in
    let stays : Memᴰ a (update_where (held key token) f rows) =
      missed (held key token) f rows a m other in
    let keyed' = IsKeyed-update_where task_key (held key token) f (λ b _. refl) rows keyed in
    elim (Bool-cases (count_where (held key token) rows == 0)) [
      | inl none_held ↦ rw none_held stays
      | inr some_held ↦ rw some_held (prune-keeps c _ keyed' a stays e)
    ]
  where
    missed :
        (p : Task → Bool) (f : Task → Task) (rows : List Task) (a : Task)
        → Memᴰ a rows
        → p a ≡ false
        → Memᴰ a (update_where p f rows)
    missed p f rows a m e =
        let k : Memᴰ (if p a then f a else a) (update_where p f rows) = update_where-Memᴰ p f m in
        rw e at k
