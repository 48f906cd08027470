-- ===== src/Agents/Reach.antt =====
-- Every history of the registry (form/src/kcatta_form/agent_identity_store.py): Form's processes call
-- its operations in any order, and the clock does not run backwards between calls. A call that
-- raises is rolled back and leaves no step; the reads change nothing.
use kcatta.Prelude.{ℕ, ◌≤◌, ◌≡◌, Bool, Option, List, [], Text, arith, true, ok}
use kcatta.Agents.Rows.{Time, CertificateRow, Db, AgentIdentity}
use kcatta.Agents.Registry
use kcatta.Agents.Rotation
use kcatta.Agents.Rotation.{Metadata, overlaps, ends_after}
use kcatta.Agents.Revocation
use kcatta.Agents.Effect.{Effect, unchanged, registered, staged, rotated, weakened}
use kcatta.Agents.Effect.Registry.{get_or_create-Effect}
use kcatta.Agents.Effect.Rotation.{stage_certificate-Effect, activate-Effect}
use kcatta.Agents.Effect.Revocation.{abort-Effect, revoke-Effect, revoke_certificates-Effect}
use kcatta.Agents.Sound.Keys.{IsSound}
use kcatta.Agents.Sound.Registered.{registered-IsSound}
use kcatta.Agents.Sound.Staged.{staged-IsSound}
use kcatta.Agents.Sound.Weakened.{weakened-IsSound}
use kcatta.Agents.Sound.Activated.{activated-IsSound}

-- A call at time `now` that returns and commits.
pub data Call (sha256 : Text → Text) (now : Time) (db db' : Db) : Type 0 where
  get_or_create :
      (target host : Text) (scopes : List Text) (agent_id : Option Text) (hex : Text)
      (answer : AgentIdentity × Bool)
      → Registry.get_or_create target host scopes agent_id hex now db ≡ ok (answer, db')
      → Call sha256 now db db'
  stage_certificate :
      (agent_id : Text) (metadata : Metadata) (key : Option Text) (answer : AgentIdentity × Bool)
      → Rotation.stage_certificate sha256 agent_id metadata key now db ≡ ok (answer, db')
      → Call sha256 now db db'
  activate :
      (agent_id : Text) (generation : ℕ) (overlap : Time) (answer : AgentIdentity)
      → Rotation.activate agent_id generation overlap now db ≡ ok (answer, db')
      → Call sha256 now db db'
  abort :
      (agent_id : Text) (generation : ℕ) (answer : AgentIdentity)
      → Revocation.abort agent_id generation now db ≡ ok (answer, db')
      → Call sha256 now db db'
  revoke :
      (agent_id : Text) (generation : Option ℕ) (answer : AgentIdentity)
      → Revocation.revoke agent_id generation now db ≡ ok (answer, db')
      → Call sha256 now db db'
  revoke_certificates :
      (agent_id : Text) (answer : AgentIdentity)
      → Revocation.revoke_certificates agent_id now db ≡ ok (answer, db')
      → Call sha256 now db db'

abbrev pub empty : Db
empty = record { identities = []; certificates = [] }

-- The states that calls reach from the database of time `first`.
pub data After (sha256 : Text → Text) (first : Time) (db0 : Db) : Time → Db → Type 0 where
  start : After sha256 first db0 first db0
  call :
      {now later : Time} {db db' : Db}
      → After sha256 first db0 now db
      → now ≤ later
      → Call sha256 later db db'
      → After sha256 first db0 later db'

abbrev pub Reach : (Text → Text) → Time → Db → Type 0
Reach sha256 = After sha256 0 empty

pub Call-Effect :
    (sha256 : Text → Text) (now : Time) (db : Db) {db' : Db}
    → Call sha256 now db db'
    → Effect now db db'
Call-Effect sha256 now db (get_or_create target host scopes agent_id hex _ h) =
    get_or_create-Effect target host scopes agent_id hex now db h
Call-Effect sha256 now db (stage_certificate agent_id metadata key _ h) =
    stage_certificate-Effect sha256 agent_id metadata key now db h
Call-Effect sha256 now db (activate agent_id generation overlap _ h) =
    activate-Effect agent_id generation overlap now db h
Call-Effect sha256 now db (abort agent_id generation _ h) =
    abort-Effect agent_id generation now db h
Call-Effect sha256 now db (revoke agent_id generation _ h) =
    revoke-Effect agent_id generation now db h
Call-Effect sha256 now db (revoke_certificates agent_id _ h) =
    revoke_certificates-Effect agent_id now db h

pub Effect-IsSound :
    (now : Time) (db : Db) {db' : Db} → Effect now db db' → IsSound now db → IsSound now db'
Effect-IsSound now db unchanged s = s
Effect-IsSound now db (registered new free _ valid) s = registered-IsSound new free valid s
Effect-IsSound now db (staged identity new before found active generation next fits state valid) s =
    staged-IsSound new before now next db identity found active generation fits state valid s
Effect-IsSound now db (rotated agent_id generation until _ _ _ _ _ _) s =
    activated-IsSound agent_id generation now until db s
Effect-IsSound now db (weakened agent_id q f g revoking touching covers) s =
    weakened-IsSound agent_id q f g revoking touching covers now db s

-- An overlap that is open later was open before.
pub overlaps-later :
    (now later : Time) (c : CertificateRow)
    → now ≤ later
    → overlaps later c ≡ true
    → overlaps now c ≡ true
unfolding overlaps
overlaps-later now later c le h = ground arith

pub IsSound-later : {now later : Time} {db : Db} → now ≤ later → IsSound now db → IsSound later db
IsSound-later {now} {later} le s = record {
  identity_keys = s.identity_keys;
  certificate_keys = s.certificate_keys;
  owned = s.owned;
  staged_once = s.staged_once;
  active_once = s.active_once;
  overlap_once = λ a b m n p q e.
      s.overlap_once a b m n (overlaps-later now later a le p) (overlaps-later now later b le q) e;
  fields = s.fields;
  metadata = s.metadata;
}

empty-IsSound : (now : Time) → IsSound now empty
empty-IsSound now = record {
  identity_keys = record { agents = tt; targets = tt; hosts = tt };
  certificate_keys = record { generations = tt; serials = tt; fingerprints = tt };
  owned = λ c m. elim m [ ];
  staged_once = λ a b m. elim m [ ];
  active_once = λ a b m. elim m [ ];
  overlap_once = λ a b m. elim m [ ];
  fields = λ i m. elim m [ ];
  metadata = λ c m. elim m [ ];
}

-- In every state that the registry reaches from an empty database by calls at times that do not
-- decrease: agent ids, targets, hosts, generations of an agent, serials and fingerprints are unique;
-- each certificate belongs to an identity that has reached its generation, and is revoked if the
-- identity is; an agent has at most one staged and one active generation, and at most one retired
-- generation whose overlap has not ended; and every row passes the checks that a read makes.
pub registry-IsSound :
    (sha256 : Text → Text) (now : Time) (db : Db) → Reach sha256 now db → IsSound now db
registry-IsSound sha256 now db start = empty-IsSound 0
registry-IsSound sha256 now db (call {now = before} {db = db0} reach le made) =
    Effect-IsSound now db0 (Call-Effect sha256 now db0 made)
      (IsSound-later le (registry-IsSound sha256 before db0 reach))
