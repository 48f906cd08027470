-- ===== src/Agents/Promises/Handover.antt =====
-- What `activate` hands over to the new generation (form/src/kcatta_form/agent_identity_store.py).
use kcatta.Prelude.{
  ◌+◌, ◌≡◌, ◌≢◌, ◌≤◌, refl, sym, ap, ◌∙◌, ℕ, min, true, false, not, some, inl, inr, arith, Memᴰ,
  Text, ≟_refl, ==_iff, leb, ltb, ◌==◌, Bool-cases, find_where-some, ok-injective, IsKeyed-unique,
  ok, ok_elim, >>-eq-ok,
}
use kcatta.Agents.Rows.{
  Time, AgentCertificateState, value_error, conflict, AgentIdentity, CertificateRow, Db, is_staged,
  is_active, is_retired, is_agent, is_active_identity, of_agent, of_generation, identity_row,
  certificate_row, identity_from_row,
}
use kcatta.Agents.Normalize.{normalize_agent_id}
use kcatta.Agents.Rotation.{
  activate, ends_after, max_rotation_overlap, agent_overlaps, in_state, staged_generation, overlaps,
}
use kcatta.Agents.Effect.{SameCertificate}
use kcatta.Agents.Effect.Registry.{
  identity_row-some, certificate_row-some, identity_from_row-answer,
}
use kcatta.Agents.Effect.Rotation.{rotated_db, rotate-db, rotate-reread}
use kcatta.Agents.Sound.Keys.{certificate_key}
use kcatta.Agents.Sound.Rotated.{
  rotated_row, rotated-Memᴰ, rotated_row-SameCertificate, closed_row, retired_row, activated_row,
}
use kcatta.Agents.Sound.Staged.{is_agent-agent_id}
use kcatta.Agents.Sound.Activated.{of_generation-both, of_agent-agent_id}
use kcatta.Agents.Reach.{Reach, registry-IsSound}
use kcatta.Agents.Promises.Revocations.{reread-answer}

-- The rows of an agent after the `activate` of a staged generation: that one is active, the one that
-- was active is retired with an overlap to the end of its validity or of the overlap that was asked
-- for, and those that were retired have none.
pub record HandedOver (now overlap : Time) (next : CertificateRow) (db db' : Db) : Type 0 where
  pub bounded : overlap ≤ max_rotation_overlap
  pub activated :
      (d : CertificateRow) × Memᴰ d db'.certificates
      × SameCertificate next d
      × (is_active d.state ≡ true)
  pub previous :
      (c : CertificateRow)
      → Memᴰ c db.certificates
      → c.agent_id ≡ next.agent_id
      → is_active c.state ≡ true
      → (d : CertificateRow) × Memᴰ d db'.certificates
        × SameCertificate c d
        × (is_retired d.state ≡ true)
        × (d.overlap_until_us ≡ some (min c.not_after_us (now + overlap)))
  pub older :
      (c : CertificateRow)
      → Memᴰ c db.certificates
      → c.agent_id ≡ next.agent_id
      → is_retired c.state ≡ true
      → (d : CertificateRow) × Memᴰ d db'.certificates
        × SameCertificate c d
        × (is_retired d.state ≡ true)
        × (ends_after d.overlap_until_us now ≡ false)

module _ (agent_id : Text) (generation : ℕ) (now until : Time) where
  rotated_next :
      (c : CertificateRow)
      → of_generation agent_id generation c ≡ true
      → is_staged c.state ≡ true
      → is_active (rotated_row agent_id generation now until c).state ≡ true
  unfolding rotated_row closed_row retired_row activated_row agent_overlaps in_state
      staged_generation of_generation of_agent overlaps
  rotated_next c g st = ground arith

  rotated_previous :
      (c : CertificateRow)
      → of_agent agent_id c ≡ true
      → is_active c.state ≡ true
      → (is_retired (rotated_row agent_id generation now until c).state ≡ true)
        × ((rotated_row agent_id generation now until c).overlap_until_us
            ≡ some (min c.not_after_us until))
  unfolding rotated_row closed_row retired_row activated_row agent_overlaps in_state
      staged_generation of_generation of_agent overlaps
  rotated_previous c a st = ground arith

  rotated_older :
      (c : CertificateRow)
      → of_agent agent_id c ≡ true
      → is_retired c.state ≡ true
      → (is_retired (rotated_row agent_id generation now until c).state ≡ true)
        × (ends_after (rotated_row agent_id generation now until c).overlap_until_us now ≡ false)
  unfolding rotated_row closed_row retired_row activated_row agent_overlaps in_state
      staged_generation of_generation of_agent overlaps
  rotated_older c a st = ground arith

not_both : (s : AgentCertificateState) → is_staged s ≡ true → is_active s ≢ true
not_both s a b = absurd (ground arith)

is_of_agent :
    (agent_id : Text) (c : CertificateRow) → c.agent_id ≡ agent_id → of_agent agent_id c ≡ true
unfolding of_agent
is_of_agent agent_id c e = rw e (≟_refl agent_id)

is_of_generation :
    (agent_id : Text) (generation : ℕ) (c : CertificateRow)
    → c.agent_id ≡ agent_id
    → c.generation ≡ generation
    → of_generation agent_id generation c ≡ true
unfolding of_generation
is_of_generation agent_id generation c e f =
    rw (e, f, ≟_refl agent_id) ((==_iff generation generation).1 refl)

rotated-HandedOver :
    (agent_id : Text) (generation : ℕ) (now overlap : Time) (db : Db) (next : CertificateRow)
    → Memᴰ next db.certificates
    → next.agent_id ≡ agent_id
    → next.generation ≡ generation
    → is_staged next.state ≡ true
    → overlap ≤ max_rotation_overlap
    → HandedOver now overlap next db (rotated_db agent_id generation now (now + overlap) db)
rotated-HandedOver agent_id generation now overlap db next m agent number waiting le =
    let until = now + overlap in
    let row = rotated_row agent_id generation now until in
    let kept = rotated_row-SameCertificate agent_id generation now until in
    record {
      bounded = le;
      activated = (
        row next,
        rotated-Memᴰ agent_id generation now until m,
        kept next,
        rotated_next agent_id generation now until next
            (is_of_generation agent_id generation next agent number) waiting,
      );
      previous = λ c k e on.
          let (was, to) =
            rotated_previous agent_id generation now until c (is_of_agent agent_id c (e ∙ agent))
              on in
          (row c, rotated-Memᴰ agent_id generation now until k, kept c, was, to);
      older = λ c k e on.
          let (was, to) =
            rotated_older agent_id generation now until c (is_of_agent agent_id c (e ∙ agent)) on in
          (row c, rotated-Memᴰ agent_id generation now until k, kept c, was, to);
    }

-- When `activate` of a staged generation returns, from a reachable state: the overlap is at most an
-- hour; that generation is active; the generation that was active is retired, and its overlap ends at
-- the end of its validity or at the end of the overlap that was asked for, whichever is first; and
-- the overlap of each generation that was retired has ended.
pub activate-handover :
    (sha256 : Text → Text) (before now overlap : Time) (db db' : Db) (agent_id : Text)
    (answer : AgentIdentity) (next : CertificateRow)
    → Reach sha256 before db
    → Memᴰ next db.certificates
    → is_staged next.state ≡ true
    → next.agent_id ≡ answer.agent_id
    → activate agent_id next.generation overlap now db ≡ ok (answer, db')
    → HandedOver now overlap next db db'
unfolding activate
activate-handover sha256 before now overlap db db' agent_id answer next reach m waiting agent h =
    ok_elim (normalize_agent_id agent_id) _ h λ normalized _ h1.
      let generation = next.generation in
      let (_, h2) = >>-eq-ok (generation == 0) value_error _ h1 in
      let (short, h3) = >>-eq-ok (ltb max_rotation_overlap overlap) value_error _ h2 in
      ok_elim (identity_row db normalized) _ h3 λ identity found h4.
        let (_, h5) = >>-eq-ok (not (is_active_identity identity.state)) conflict _ h4 in
        ok_elim (certificate_row db normalized generation) _ h5 λ certificate held h6.
          let (k, is_row) =
            find_where-some (of_generation normalized generation) db.certificates
              (certificate_row-some db normalized generation held) in
          let (mine, number) = of_generation-both normalized generation certificate is_row in
          let agent_is = of_agent-agent_id normalized certificate mine in
          elim (Bool-cases (is_active certificate.state)) [
            | inl e ↦ ok_elim (identity_from_row db identity) _ (rw e at h6) λ read got h7.
                let (read_agent, _) = identity_from_row-answer db identity got in
                let (_, is_owner) =
                  find_where-some (is_agent normalized) db.identities
                    (identity_row-some db normalized found) in
                let answer_agent =
                  ap (λ (p : AgentIdentity × Db). p.0.agent_id) (sym (ok-injective h7)) in
                let owner_agent = is_agent-agent_id normalized identity is_owner in
                let keys = (registry-IsSound sha256 before db reach).certificate_keys.generations in
                let same =
                  IsKeyed-unique certificate_key db.certificates keys next certificate m k
                    (cc (agent, answer_agent, read_agent, owner_agent, agent_is, number)) in
                absurd (not_both next.state waiting (rw (sym same) at e))
            | inr e ↦
                let h7 = rw e at h6 in
                let (_, h8) = >>-eq-ok (not (is_staged certificate.state)) conflict _ h7 in
                let (_, h9) = >>-eq-ok (leb certificate.not_after_us now) conflict _ h8 in
                let (_, _, _, same, _) =
                  reread-answer normalized _
                    (rotate-reread normalized generation now (now + overlap) db h9) in
                rw (rotate-db normalized generation now (now + overlap) db h9) (
                  rotated-HandedOver normalized generation now overlap db next m (agent ∙ same) refl
                    waiting (ground arith))
          ]
