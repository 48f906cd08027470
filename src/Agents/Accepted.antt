-- ===== src/Agents/Accepted.antt =====
-- What `verify` accepts (form/src/kcatta_form/agent_identity_store.py).
use kcatta.Prelude.{
  ◌≡◌, sym, ap, ◌∙◌, true, Bool, ◌&&◌, Option, some, List, [], ◌∷◌, ◌++◌, ◌⊎◌, inl, inr, Memᴰ, head,
  tail, Text, ◌≟◌, ≟_iff, Bool-cases, Option-cases, eq_of_some, find_where, find_where-some, ok,
  ok-injective, ok_elim, >>-eq-ok,
}
use kcatta.Agents.Rows.{
  Time, value_error, IdentityRow, CertificateRow, Db, valid_certificate, certificate_of,
  certificate_from_row, is_agent,
}
use kcatta.Agents.Normalize.{normalize_hex, normalize_serial}
use kcatta.Agents.Verify.{
  VerifiedAgentIdentity, join_row, join, identified, accepts, principal, is_none, optional, verify,
}

Memᴰ-append : {A : Type 0} (xs ys : List A) {x : A} → Memᴰ x (xs ++ ys) → Memᴰ x xs ⊎ Memᴰ x ys
Memᴰ-append [] ys m = inr m
Memᴰ-append (y ∷ xs) ys (head e) = inl (head e)
Memᴰ-append (y ∷ xs) ys (tail m) = elim (Memᴰ-append xs ys m) [
  | inl k ↦ inl (tail k)
  | inr k ↦ inr k
]

join_row-Memᴰ :
    (c : CertificateRow) (identities : List IdentityRow) {row : CertificateRow × IdentityRow}
    → Memᴰ row (join_row c identities)
    → (row.0 ≡ c) × Memᴰ row.1 identities × (row.1.agent_id ≡ c.agent_id)
unfolding join_row is_agent
join_row-Memᴰ c [] m = elim m [ ]
join_row-Memᴰ c (i ∷ rest) {row} m = elim (Bool-cases (i.agent_id ≟ c.agent_id)) [
  | inl e ↦ elim (rw e at m) [
    | head q ↦ (
      ap (λ p. p.0) q,
      head (ap (λ p. p.1) q),
      ap (λ (p : CertificateRow × IdentityRow). p.1.agent_id) q ∙ (≟_iff i.agent_id c.agent_id).0 e,
    )
    | tail k ↦ let (a, b, d) = join_row-Memᴰ c rest k in (a, tail b, d)
  ]
  | inr e ↦ let (a, b, d) = join_row-Memᴰ c rest (rw e at m) in (a, tail b, d)
]

join-Memᴰ :
    (certificates : List CertificateRow) (identities : List IdentityRow)
    {row : CertificateRow × IdentityRow}
    → Memᴰ row (join certificates identities)
    → Memᴰ row.0 certificates × Memᴰ row.1 identities × (row.1.agent_id ≡ row.0.agent_id)
unfolding join
join-Memᴰ [] identities m = elim m [ ]
join-Memᴰ (c ∷ certificates) identities m =
    elim (Memᴰ-append (join_row c identities) (join certificates identities) m) [
      | inl k ↦
          let (a, b, d) = join_row-Memᴰ c identities k in
          (head a, b, d ∙ ap (λ (x : CertificateRow). x.agent_id) (sym a))
      | inr k ↦ let (a, b, d) = join-Memᴰ certificates identities k in (tail a, b, d)
    ]

-- The row on which `verify` answered with a principal.
pub record Verified (db : Db) (now : Time) (allow_staged : Bool) (v : VerifiedAgentIdentity)
    : Type 0 where
  pub row : CertificateRow
  pub owner : IdentityRow
  pub held : Memᴰ row db.certificates
  pub bound : Memᴰ owner db.identities
  pub agent : owner.agent_id ≡ row.agent_id
  pub accepted : accepts allow_staged now (row, owner) ≡ true
  pub principal_is : v ≡ record {
    agent_id = row.agent_id;
    target_id = owner.target_id;
    canonical_host_id = owner.canonical_host_id;
    scopes = owner.scopes;
    certificate = certificate_of row;
  }

principal-some :
    (allow_staged : Bool) (now : Time) (c : CertificateRow) (i : IdentityRow)
    {v : VerifiedAgentIdentity}
    → principal allow_staged now (c, i) ≡ ok (some v)
    → (accepts allow_staged now (c, i) ≡ true)
      × (v ≡ record {
        agent_id = c.agent_id;
        target_id = i.target_id;
        canonical_host_id = i.canonical_host_id;
        scopes = i.scopes;
        certificate = certificate_of c;
      })
unfolding principal certificate_from_row
principal-some allow_staged now c i h = elim (Bool-cases (accepts allow_staged now (c, i))) [
  | inr e ↦ absurd (let h1 = rw e at h in let h2 = ok-injective h1 in cc)
  | inl e ↦ (
    e,
    elim (Bool-cases (valid_certificate (certificate_of c))) [
      | inl valid ↦ eq_of_some (sym (ok-injective (rw (e, valid) at h)))
      | inr invalid ↦ absurd (let h1 = rw (e, invalid) at h in cc)
    ],
  )
]

pub verify-Verified :
    (db : Db) (fingerprint serial : Option Text) (now : Time) (allow_staged : Bool)
    {v : VerifiedAgentIdentity}
    → verify db fingerprint serial now allow_staged ≡ ok (some v)
    → Verified db now allow_staged v
unfolding verify
verify-Verified db fingerprint serial now allow_staged {v} h =
    let (_, h1) = >>-eq-ok (is_none fingerprint && is_none serial) value_error _ h in
    ok_elim (optional (λ value. normalize_hex value (some 64)) fingerprint) _ h1 λ fp _ h2.
      ok_elim (optional normalize_serial serial) _ h2 λ sn _ h3.
        elim (Option-cases (find_where (identified fp sn) (join db.certificates db.identities))) [
          | inl e ↦ absurd (let h4 = ok-injective (rw e at h3) in cc)
          | inr ((c, i), e) ↦
              let (m, _) =
                find_where-some (identified fp sn) (join db.certificates db.identities) e in
              let (held, bound, agent) = join-Memᴰ db.certificates db.identities m in
              let (accepted, made) = principal-some allow_staged now c i (rw e at h3) in
              record {
                row = c;
                owner = i;
                held = held;
                bound = bound;
                agent = agent;
                accepted = accepted;
                principal_is = made;
              }
        ]
