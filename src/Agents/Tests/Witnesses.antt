-- ===== src/Agents/Tests/Witnesses.antt =====
-- The theorems on form/src/kcatta_form/agent_identity_store.py applied to a concrete agent.
use kcatta.Prelude.{
  ℕ, ◌≡◌, ◌≢◌, ◌<◌, ◌⊎◌, refl, Bool, true, false, Option, none, some, [], ◌∷◌, Memᴰ, head, codes,
  arith, ok, err,
}
use kcatta.Agents.Rows.{
  AgentCertificateState, Result, value_error, identity_not_found, AgentIdentity, IdentityRow, Db,
}
use kcatta.Agents.Normalize.{normalize_agent_id}
use kcatta.Agents.Registry.{get_or_create, get}
use kcatta.Agents.Rotation.{stage_certificate, activate, make_active, retire}
use kcatta.Agents.Revocation.{revoke, revoke_certificates, revoke_row}
use kcatta.Agents.Verify.{VerifiedAgentIdentity, verify}
use kcatta.Agents.Sound.Keys.{IsSound}
use kcatta.Agents.Reach.{Call, start, call, registry-IsSound}
use kcatta.Agents.Promises.Credentials.{verify_two_at_most}
use kcatta.Agents.Promises.History.{Reach-Extends}
use kcatta.Agents.Extends.{Extends}
use kcatta.Agents.Promises.Finality.{revoke-final, revoke_certificates-final}
use kcatta.Agents.Promises.Reads.{identity_of, get-total}
use kcatta.Agents.Promises.Staging.{stage_certificate-replay}
use kcatta.Agents.Promises.Handover.{HandedOver, activate-handover}
use kcatta.Agents.Promises.Binding.{get_or_create-replay}
use kcatta.Agents.Tests.{
  digest, sixty_four, target, host, agent, scopes, certificate, identity_at, row_at, first_row,
  second_row, answer_in, pair_in, creation, created, first_staging, first_staged, first_activation,
  first_active, second_staging, second_activation, second_active, creation-ok, first_staging-ok,
  first_activation-ok, second_staging-ok, second_activation-ok, created-Reach, first_staged-Reach,
  first_active-Reach, second_active-Reach,
}

abbrev no_principal : VerifiedAgentIdentity
no_principal = record {
  agent_id = [];
  target_id = [];
  canonical_host_id = [];
  scopes = [];
  certificate = record {
    agent_id = [];
    generation = 0;
    serial_number = [];
    cert_sha256 = [];
    spki_sha256 = [];
    state = AgentCertificateState.staged;
    not_before = 0;
    not_after = 0;
    created_at = 0;
    activated_at = none;
    retired_at = none;
    overlap_until = none;
    revoked_at = none;
  };
}

abbrev principal_in : Result (Option VerifiedAgentIdentity) → VerifiedAgentIdentity
principal_in (ok (some v)) = v
principal_in _ = no_principal

registry-IsSound_example : IsSound 5 second_active
registry-IsSound_example = registry-IsSound digest 5 second_active second_active-Reach

-- Both generations are accepted while the first one overlaps.
abbrev seen : ℕ → VerifiedAgentIdentity
seen c = principal_in (verify second_active (some (sixty_four 64 c)) none 6 false)

seen-first : verify second_active (some (sixty_four 64 97)) none 6 false ≡ ok (some (seen 97))
unfolding verify
seen-first = refl

seen-second : verify second_active (some (sixty_four 64 98)) none 6 false ≡ ok (some (seen 98))
unfolding verify
seen-second = refl

same_agent : (seen 97).agent_id ≡ (seen 98).agent_id
unfolding verify
same_agent = refl

verify_two_at_most_example :
    ((seen 97).certificate.generation ≡ (seen 98).certificate.generation)
    ⊎ (((seen 98).certificate.generation ≡ (seen 98).certificate.generation)
        ⊎ ((seen 97).certificate.generation ≡ (seen 98).certificate.generation))
verify_two_at_most_example =
    verify_two_at_most digest 5 6 second_active (some (sixty_four 64 97)) none
      (some (sixty_four 64 98)) none (some (sixty_four 64 98)) none (seen 97) (seen 98) (seen 98)
      second_active-Reach (omega arith) seen-first seen-second seen-second same_agent refl

Reach-Extends_example : Extends first_active second_active
Reach-Extends_example = Reach-Extends digest 3 first_active 5 second_active first_active-Reach (
    call {now = 4}
      (call {now = 3} start (omega arith) (
        Call.stage_certificate agent (certificate 2 98) none (pair_in second_staging)
          second_staging-ok))
      (omega arith) (Call.activate agent 2 100 (answer_in second_activation) second_activation-ok))

-- The first generation is revoked in its overlap; the second is still accepted.
abbrev revocation : Result (AgentIdentity × Db)
revocation = revoke agent (some 1) 6 second_active

abbrev revoked_db : Db
revoked_db = record {
  identities = identity_at 2 6 5 ∷ [];
  certificates =
      make_active 5 second_row ∷ revoke_row 6 (retire 5 105 (make_active 3 first_row)) ∷ [];
}

revocation-ok : revocation ≡ ok (answer_in revocation, revoked_db)
unfolding revoke
revocation-ok = refl

abbrev remaining : VerifiedAgentIdentity
remaining = principal_in (verify revoked_db (some (sixty_four 64 98)) none 7 false)

remaining-seen : verify revoked_db (some (sixty_four 64 98)) none 7 false ≡ ok (some remaining)
unfolding revoke verify
remaining-seen = refl

remaining-agent : remaining.agent_id ≡ (answer_in revocation).agent_id
unfolding revoke verify
remaining-agent = refl

revoke-final_example :
    (number : ℕ) × (some 1 ≡ some number) × (remaining.certificate.generation ≢ number)
revoke-final_example =
    revoke-final digest 5 6 6 7 second_active revoked_db revoked_db agent (some 1)
      (answer_in revocation) (some (sixty_four 64 98)) none false remaining second_active-Reach
      (omega arith) revocation-ok start remaining-seen remaining-agent

-- A call with the certificates of `created` revoked, of which there are none, and a new generation.
abbrev clearing : Result (AgentIdentity × Db)
clearing = revoke_certificates agent 2 created

clearing-ok : clearing ≡ ok (answer_in clearing, created)
unfolding revoke_certificates
clearing-ok = refl

abbrev restaging : Result ((AgentIdentity × Bool) × Db)
restaging = stage_certificate digest agent (certificate 1 97) none 3 created

abbrev restaged_db : Db
restaged_db = record { identities = identity_at 1 3 1 ∷ []; certificates = row_at 1 97 none 3 ∷ [] }

restaging-ok : restaging ≡ ok (pair_in restaging, restaged_db)
unfolding revoke_certificates stage_certificate
restaging-ok = refl

abbrev restaged : VerifiedAgentIdentity
restaged = principal_in (verify restaged_db none (some (codes "00A")) 4 true)

restaged-seen : verify restaged_db none (some (codes "00A")) 4 true ≡ ok (some restaged)
unfolding revoke_certificates stage_certificate verify
restaged-seen = refl

restaged-agent : restaged.agent_id ≡ (answer_in clearing).agent_id
unfolding revoke_certificates stage_certificate verify
restaged-agent = refl

revoke_certificates-final_example :
    (answer_in clearing).generation < restaged.certificate.generation
revoke_certificates-final_example =
    revoke_certificates-final digest 1 2 3 4 created created restaged_db agent (answer_in clearing)
      none (some (codes "00A")) true restaged created-Reach (omega arith) clearing-ok
      (call {now = 2} start (omega arith)
        (Call.stage_certificate agent (certificate 1 97) none (pair_in restaging) restaging-ok))
      restaged-seen restaged-agent

get-total_example :
    (normalize_agent_id agent ≡ err value_error)
    ⊎ ((get created agent ≡ err identity_not_found)
        ⊎ ((i : IdentityRow) × Memᴰ i created.identities
            × (normalize_agent_id agent ≡ ok i.agent_id)
            × (get created agent ≡ ok (identity_of created i))))
get-total_example = get-total digest 1 created agent created-Reach

abbrev staged_pair : AgentIdentity × Bool
staged_pair = pair_in first_staging

stage_certificate-replay_example :
    stage_certificate digest agent (certificate 1 97) (some (codes " job-1 ")) 9 first_staged
    ≡ ok ((staged_pair.0, false), first_staged)
stage_certificate-replay_example =
    stage_certificate-replay digest 1 2 9 created first_staged agent (certificate 1 97)
      (codes " job-1 ") staged_pair.0 staged_pair.1 created-Reach first_staging-ok

get_or_create-replay_example :
    get_or_create target host scopes (some agent) (codes "11") 9 created
    ≡ ok (((pair_in creation).0, false), created)
get_or_create-replay_example =
    get_or_create-replay target host scopes (some agent) (codes "00") (codes "11") 1 9
      (record { identities = []; certificates = [] }) created (pair_in creation).0
      (pair_in creation).1 creation-ok

first_row-Memᴰ : Memᴰ first_row first_staged.certificates
first_row-Memᴰ = head refl

first_row-agent : first_row.agent_id ≡ (answer_in first_activation).agent_id
unfolding activate
first_row-agent = refl

activate-handover_example : HandedOver 3 100 first_row first_staged first_active
activate-handover_example =
    activate-handover digest 2 3 100 first_staged first_active agent (answer_in first_activation)
      first_row first_staged-Reach first_row-Memᴰ refl first_row-agent first_activation-ok
