-- ===== src/Agents/Promises/History.antt =====
-- What later calls leave of a certificate and of an identity
-- (form/src/kcatta_form/agent_identity_store.py).
use kcatta.Prelude.{
  ◌≡◌, sym, ap, ◌∙◌, true, Bool, inl, inr, arith, head, tail, find_where-some, Memᴰ-update_where,
  Text, IsKeyed-unique,
}
use kcatta.Agents.Rows.{Time, IdentityRow, CertificateRow, Db, is_active_identity, is_agent}
use kcatta.Agents.Rotation.{touch_identity, touched, at_generation}
use kcatta.Agents.Effect.{Effect, Covers, unchanged, registered, rotated, weakened, staged_identity}
use kcatta.Agents.Effect.Revocation.{touch-Touching}
use kcatta.Agents.Sound.Keys.{
  IsSound, SameCertificate-refl, SameCertificate-if, SameIdentity-refl, identity_agent,
}
use kcatta.Agents.Sound.Staged.{
  is_agent-agent_id, at_generation-generation, staged_identity-SameIdentity,
}
use kcatta.Agents.Sound.Rotated.{
  rotated_row, rotated-Memᴰ, Memᴰ-rotated, rotated_row-SameCertificate,
}
use kcatta.Agents.Reach.{
  Effect-IsSound, Call-Effect, After, start, call, Reach, registry-IsSound, IsSound-later,
}
use kcatta.Agents.Extends.{
  Extends, Extends-refl, Extends-trans, identities-update_where, rotated_row-age,
  weakened-certificates,
}

Covers-alive :
    (agent_id : Text) (q : CertificateRow → Bool) (g : IdentityRow → IdentityRow)
    → Covers agent_id q g
    → (i : IdentityRow) → is_active_identity (g i).state ≡ true
    → is_active_identity i.state ≡ true
Covers-alive agent_id q g (inl same) i on = rw (same i) at on
Covers-alive agent_id q g (inr (gone, _)) i on = absurd (let off = rw (gone i) at on in cc)

Effect-Extends :
    (now : Time) (db : Db) {db' : Db} → IsSound now db → Effect now db db' → Extends db db'
unfolding touched
Effect-Extends now db s unchanged = Extends-refl db
Effect-Extends now db s (registered new _ _ _) = record {
  certificates = (Extends-refl db).certificates;
  identities = λ i m. (i, tail m, SameIdentity-refl i, omega arith, λ on. on);
  added = (Extends-refl db).added;
}
Effect-Extends now db s (Effect.staged identity new before found _ generation next _ _ _) = record {
  certificates = λ a m. (a, tail m, SameCertificate-refl a, omega arith);
  identities =
      identities-update_where (at_generation new.agent_id before) (staged_identity new now)
        db.identities (staged_identity-SameIdentity new now)
        (λ i e. omega (arith, next, at_generation-generation new.agent_id before i e)) (λ i on. on);
  added = λ b m. elim m [
    | tail k ↦ inl (b, k, SameCertificate-refl b)
    | head e ↦
        let (present, is_owner) = find_where-some (is_agent new.agent_id) db.identities found in
        inr (λ i k same.
          let owner : i ≡ identity =
            IsKeyed-unique identity_agent db.identities s.identity_keys.agents i identity k present
              (same
                ∙ (ap (λ (c : CertificateRow). c.agent_id) e
                    ∙ sym (is_agent-agent_id new.agent_id identity is_owner))) in
          rw (owner, e) (omega (arith, next, generation)))
  ];
}
Effect-Extends now db s (rotated agent_id generation until _ _ _ _ _ _) = record {
  certificates = λ a m. (
    rotated_row agent_id generation now until a,
    rotated-Memᴰ agent_id generation now until m,
    rotated_row-SameCertificate agent_id generation now until a,
    rotated_row-age agent_id generation now until a,
  );
  identities =
      identities-update_where (is_agent agent_id) (touch_identity now) db.identities
        (touch-Touching now).same (λ i _. omega arith) (λ i on. on);
  added = λ b m.
      let (a, k, e) = Memᴰ-rotated agent_id generation now until db.certificates m in
      inl (a, k, rw e (rotated_row-SameCertificate agent_id generation now until a));
}
Effect-Extends now db s (weakened agent_id q f g revoking touching covers) = record {
  certificates = weakened-certificates q f db.certificates revoking;
  identities =
      identities-update_where (is_agent agent_id) g db.identities touching.same
        (λ i _. omega (arith, touching.generation i)) (Covers-alive agent_id q g covers);
  added = λ b m.
      let (a, k, e) = Memᴰ-update_where q f db.certificates m in
      inl (a, k, rw e (SameCertificate-if (q a) a (f a) (revoking.same a)));
}

pub After-IsSound :
    (sha256 : Text → Text) (first : Time) (db0 : Db) (now : Time) (db : Db)
    → IsSound first db0
    → After sha256 first db0 now db
    → IsSound now db
After-IsSound sha256 first db0 now db s start = s
After-IsSound sha256 first db0 now db s (call {now = before} {db = db1} after le made) =
    Effect-IsSound now db1 (Call-Effect sha256 now db1 made)
      (IsSound-later le (After-IsSound sha256 first db0 before db1 s after))

pub After-Extends :
    (sha256 : Text → Text) (first : Time) (db0 : Db) (now : Time) (db : Db)
    → IsSound first db0
    → After sha256 first db0 now db
    → Extends db0 db
After-Extends sha256 first db0 now db s start = Extends-refl db0
After-Extends sha256 first db0 now db s (call {now = before} {db = db1} after le made) =
    Extends-trans (After-Extends sha256 first db0 before db1 s after) (
      Effect-Extends now db1 (IsSound-later le (After-IsSound sha256 first db0 before db1 s after))
        (Call-Effect sha256 now db1 made))

-- From a reachable state, whatever calls follow, no certificate and no identity is removed: each
-- keeps its agent, generation, serial number, fingerprints, PEM text and validity, or its target,
-- host and scopes; a certificate moves only from staged to active to retired to revoked; the
-- generation of an identity never decreases, and a revoked identity stays revoked; and a certificate
-- that was added has a generation above the one that its agent had.
pub Reach-Extends :
    (sha256 : Text → Text) (first : Time) (db0 : Db) (now : Time) (db : Db)
    → Reach sha256 first db0
    → After sha256 first db0 now db
    → Extends db0 db
Reach-Extends sha256 first db0 now db reach after =
    After-Extends sha256 first db0 now db (registry-IsSound sha256 first db0 reach) after
