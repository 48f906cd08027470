-- ===== src/Agents/Tests.antt =====
-- The theorems on form/src/kcatta_form/agent_identity_store.py at an agent whose first certificate is
-- staged, activated, replaced by a second one and revoked.
mod Witnesses
use kcatta.Prelude.{
  ℕ, zero, suc, ◌≤◌, ◌≡◌, refl, Bool, true, false, Option, none, some, List, [], ◌∷◌, ◌++◌, Text,
  codes, arith, ok, err,
}
use kcatta.Agents.Rows.{
  Time, Result, AgentIdentity, AgentIdentityState, AgentScope, IdentityRow, CertificateRow, Db,
}
use kcatta.Agents.Registry.{get_or_create, new_identity}
use kcatta.Agents.Rotation.{
  Metadata, stage_certificate, activate, new_certificate, make_active, retire,
}
use kcatta.Agents.Revocation.{revoke, revoke_certificates}
use kcatta.Agents.Verify.{VerifiedAgentIdentity, verify}
use kcatta.Agents.Reach.{Call, After, Reach, start, call, empty}

abbrev pub digest : Text → Text
digest text = codes "sha256:" ++ text

abbrev pub sixty_four : ℕ → ℕ → Text
sixty_four zero c = []
sixty_four (suc n) c = c ∷ sixty_four n c

abbrev pub target : Text
target = codes "target-1"

abbrev pub host : Text
host = codes "host-1"

abbrev pub agent : Text
agent = codes "edge-7"

abbrev pub scopes : List Text
scopes = codes "trace-batch" ∷ codes "asset-report" ∷ codes "trace-batch" ∷ []

-- A certificate that is valid from 0 to 1000.
abbrev pub certificate : ℕ → ℕ → Metadata
certificate generation c = record {
  generation = generation;
  serial_number = 48 ∷ 120 ∷ 48 ∷ c ∷ [];
  cert_sha256 = sixty_four 64 c;
  spki_sha256 = sixty_four 64 c;
  certificate_pem = codes "PEM";
  not_before = 0;
  not_after = 1000;
}

abbrev pub no_identity : AgentIdentity
no_identity = record {
  agent_id = [];
  target_id = [];
  canonical_host_id = [];
  scopes = [];
  state = AgentIdentityState.active;
  generation = 0;
  created_at = 0;
  updated_at = 0;
  revoked_at = none;
  certificates = [];
}

abbrev pub committed : {A : Type 0} → Result (A × Db) → Db
committed (ok (a, db)) = db
committed (err e) = empty

abbrev pub answer_in : Result (AgentIdentity × Db) → AgentIdentity
answer_in (ok (identity, db)) = identity
answer_in (err e) = no_identity

abbrev pub pair_in : Result ((AgentIdentity × Bool) × Db) → AgentIdentity × Bool
pair_in (ok (p, db)) = p
pair_in (err e) = (no_identity, true)

-- The row of the agent, and its certificates as they are staged.
abbrev pub identity_at : ℕ → Time → ℕ → IdentityRow
identity_at generation updated revision =
    record (new_identity agent target host (AgentScope.asset_report ∷ AgentScope.trace_batch ∷ [])
      1) { generation = generation; updated_at_us = updated; revision = revision }

abbrev pub row_at : ℕ → ℕ → Option Text → Time → CertificateRow
row_at generation c key now =
    new_certificate agent (record (certificate generation c) { serial_number = c ∷ [] }) key now

abbrev pub first_row : CertificateRow
first_row = row_at 1 97 (some (digest (codes "job-1"))) 2

abbrev pub second_row : CertificateRow
second_row = row_at 2 98 none 4

abbrev pub created : Db
created = record { identities = identity_at 0 1 0 ∷ []; certificates = [] }

abbrev pub first_staged : Db
first_staged = record { identities = identity_at 1 2 1 ∷ []; certificates = first_row ∷ [] }

abbrev pub first_active : Db
first_active = record {
  identities = identity_at 1 3 2 ∷ [];
  certificates = make_active 3 first_row ∷ [];
}

abbrev pub second_staged : Db
second_staged = record {
  identities = identity_at 2 4 3 ∷ [];
  certificates = second_row ∷ make_active 3 first_row ∷ [];
}

abbrev pub second_active : Db
second_active = record {
  identities = identity_at 2 5 4 ∷ [];
  certificates = make_active 5 second_row ∷ retire 5 105 (make_active 3 first_row) ∷ [];
}

abbrev pub creation : Result ((AgentIdentity × Bool) × Db)
creation = get_or_create target host scopes (some agent) (codes "00") 1 empty

abbrev pub first_key : Option Text
first_key = some (codes " job-1 ")

abbrev pub first_staging : Result ((AgentIdentity × Bool) × Db)
first_staging = stage_certificate digest agent (certificate 1 97) first_key 2 created

abbrev pub first_activation : Result (AgentIdentity × Db)
first_activation = activate agent 1 100 3 first_staged

abbrev pub second_staging : Result ((AgentIdentity × Bool) × Db)
second_staging = stage_certificate digest agent (certificate 2 98) none 4 first_active

abbrev pub second_activation : Result (AgentIdentity × Db)
second_activation = activate agent 2 100 5 second_staged

pub creation-ok : creation ≡ ok (pair_in creation, created)
unfolding get_or_create
creation-ok = refl

pub first_staging-ok : first_staging ≡ ok (pair_in first_staging, first_staged)
unfolding stage_certificate
first_staging-ok = refl

pub first_activation-ok : first_activation ≡ ok (answer_in first_activation, first_active)
unfolding activate
first_activation-ok = refl

pub second_staging-ok : second_staging ≡ ok (pair_in second_staging, second_staged)
unfolding stage_certificate
second_staging-ok = refl

pub second_activation-ok : second_activation ≡ ok (answer_in second_activation, second_active)
unfolding activate
second_activation-ok = refl

pub created-Reach : Reach digest 1 created
created-Reach =
    call {now = 0} start (omega arith) (
      Call.get_or_create target host scopes (some agent) (codes "00") (pair_in creation)
        creation-ok)

pub first_staged-Reach : Reach digest 2 first_staged
first_staged-Reach = call {now = 1} created-Reach (omega arith) (
    Call.stage_certificate agent (certificate 1 97) first_key (pair_in first_staging)
      first_staging-ok)

pub first_active-Reach : Reach digest 3 first_active
first_active-Reach =
    call {now = 2} first_staged-Reach (omega arith)
      (Call.activate agent 1 100 (answer_in first_activation) first_activation-ok)

pub second_staged-Reach : Reach digest 4 second_staged
second_staged-Reach = call {now = 3} first_active-Reach (omega arith) (
    Call.stage_certificate agent (certificate 2 98) none (pair_in second_staging) second_staging-ok)

pub second_active-Reach : Reach digest 5 second_active
second_active-Reach =
    call {now = 4} second_staged-Reach (omega arith)
      (Call.activate agent 2 100 (answer_in second_activation) second_activation-ok)
