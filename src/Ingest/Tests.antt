-- ===== src/Ingest/Tests.antt =====
-- The theorems on analyzer/src/analyzer/api/ingest_queue.py at a ledger of one task.
use kcatta.Prelude.{
  length, ℕ, ◌+◌, ◌≢◌, ap, ≟_iff, ◌≟◌, ◌≤◌, ◌<◌, ◌≡◌, refl, Bool, true, false, ◌⊎◌, inr, Option,
  none, some, List, [], ◌∷◌, Memᴰ, head, tail, Text, arith, min, IsKeyed,
}
use kcatta.Ingest.Ledger.{
  TaskKind, Task, Config, submitted, submit, claim_where, claim, complete_task, retry, Outcome,
  task_key, new_task, held,
}
use kcatta.Ingest.Worker.{Settings, retry_delay}
use kcatta.Ingest.Fate.{submit-idempotent, retry_delay-bounds}
use kcatta.Ingest.Seen.{Entry, check_and_add, set_result}
use kcatta.Ingest.Window.{window-bound}
use kcatta.Ingest.Once.{Refused, settles-once, complete_task-keeps}
use kcatta.Ingest.Held.{Others, stay, claims, retries, claim_where-exclusive}

abbrev config : Config
config = record {
  max_completed = 1;
  max_bytes = 100000;
  sha256 = λ t. t;
  utf8_bytes = λ _. 10;
  effective_bytes = λ _. 0;
}

abbrev key_a : Text
key_a = 65 ∷ []

abbrev task_a : Task
task_a = new_task config key_a TaskKind.trace_batch (1 ∷ []) (2 ∷ []) 5

abbrev task_b : Task
task_b = new_task config (66 ∷ []) TaskKind.asset_report (3 ∷ []) (4 ∷ []) 6

abbrev ledger : List Task
ledger = task_a ∷ task_b ∷ []

distinct : task_b.key ≢ task_a.key
unfolding ◌≟◌
distinct h = let t : false ≡ true = (≟_iff (66 ∷ []) (65 ∷ [])).1 h in cc

ledger-IsKeyed : IsKeyed task_key ledger
ledger-IsKeyed = (
  λ y m e. elim m [
    | head q ↦ let same : task_b.key ≡ task_a.key = cc (ap task_key q, e) in distinct same
    | tail k ↦ elim k [ ]
  ],
  (λ y m e. elim m [ ], tt),
)

accepted :
    submit config key_a TaskKind.trace_batch (1 ∷ []) (2 ∷ []) 5 []
    ≡ submitted task_a true (task_a ∷ [])
unfolding submit
accepted = refl

submit-idempotent_example :
    submit config key_a TaskKind.guard_event (9 ∷ []) (2 ∷ []) 8 (task_a ∷ [])
    ≡ submitted task_a false (task_a ∷ [])
submit-idempotent_example =
    submit-idempotent config key_a TaskKind.trace_batch (1 ∷ []) (2 ∷ []) 5 [] task_a true
      (task_a ∷ []) accepted TaskKind.guard_event (9 ∷ []) 8

abbrev settings : Settings
settings = record { lease = 30; retry_base = 5; retry_max = 300 }

two_three : 2 ≤ 3
two_three = omega arith

retry_delay-bounds_example :
    (min 300 5 ≤ retry_delay settings 2)
    × (retry_delay settings 3 ≤ 300)
    × (retry_delay settings 2 ≤ retry_delay settings 3)
retry_delay-bounds_example = retry_delay-bounds settings 2 3 two_three

abbrev any : Task → Bool
any _ = true

abbrev claim_result : Option Task × List Task
claim_result = claim_where any 10 30 (7 ∷ []) ledger

abbrev task_of : Option Task → Task
task_of none = task_b
task_of (some t) = t

abbrev claimed_a : Task
claimed_a = task_of claim_result.0

abbrev held_ledger : List Task
held_ledger = claim_result.1

claim_result-ok : claim_result ≡ (some claimed_a, held_ledger)
unfolding claim_where
claim_result-ok = refl

early : 39 < 10 + 30
early = omega arith

-- Another worker claims by no key, and retries under a token that holds nothing.
abbrev crowded : List Task
crowded =
    (retry claimed_a.key (9 ∷ []) (1 ∷ []) 0 30 (claim_where any 20 5 (9 ∷ []) held_ledger).1).1

tokens_differ : ◌≢◌ {A = Text} (9 ∷ []) (7 ∷ [])
tokens_differ e = cc

others : Others claimed_a.key (7 ∷ []) (10 + 30) held_ledger crowded
others =
    retries (claims stay any 20 5 (9 ∷ []) (omega arith)) claimed_a.key (9 ∷ []) (1 ∷ []) 0 30
      (inr tokens_differ)

claim_where-exclusive_example :
    (((claim_where any 39 30 (8 ∷ []) crowded).0 ≡ none)
      ⊎ (other : Task) × ((claim_where any 39 30 (8 ∷ []) crowded).0 ≡ some other)
        × (other.key ≢ claimed_a.key))
    × (claim claimed_a.key 39 30 (8 ∷ []) crowded ≡ (none, crowded))
claim_where-exclusive_example =
    claim_where-exclusive any 10 30 (7 ∷ []) ledger claimed_a held_ledger claim_result-ok crowded
      others any 39 30 (8 ∷ []) early

settles-once_example :
    ((status : Outcome) (records : ℕ) (truncated : Bool) (reason : Option Text) (now : ℕ)
      → Refused config key_a
          (7 ∷ [])
          (complete_task config key_a (7 ∷ []) status records truncated reason now held_ledger).1)
    × ((reason : Text) (delay now : ℕ)
        → Refused config key_a (7 ∷ []) (retry key_a (7 ∷ []) reason delay now held_ledger).1)
settles-once_example = settles-once config key_a (7 ∷ []) held_ledger

in_ledger : Memᴰ task_b ledger
in_ledger = tail (head refl)

not_held : held key_a (7 ∷ []) task_b ≡ false
unfolding held
not_held = refl

complete_task-keeps_example :
    Memᴰ task_b (complete_task config key_a (7 ∷ []) Outcome.complete 3 false none 20 ledger).1
complete_task-keeps_example =
    complete_task-keeps config key_a (7 ∷ []) Outcome.complete 3 false none 20 ledger ledger-IsKeyed
      task_b in_ledger refl not_held

abbrev seen : List (Entry ℕ)
seen = record { key = key_a; result = none } ∷ []

one_seen : length seen ≤ 1
one_seen = omega arith

window-bound_example :
    (length (check_and_add ℕ 1 (66 ∷ []) seen).1 ≤ 1)
    × (length (set_result ℕ 1 (66 ∷ []) 7 seen) ≤ 1)
window-bound_example = window-bound ℕ 1 (66 ∷ []) 7 seen one_seen
