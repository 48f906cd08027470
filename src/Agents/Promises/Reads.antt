-- ===== src/Agents/Promises/Reads.antt =====
-- The reads of form/src/kcatta_form/agent_identity_store.py never meet a row that they refuse.
use kcatta.Prelude.{
  ◌≡◌, ◌≤◌, refl, ◌∙◌, true, false, not, List, [], ◌∷◌, ◌⊎◌, inl, inr, arith, map, Memᴰ, head, tail,
  Text, ≟_iff, Bool-cases, find_where-some, select, Memᴰ-select, sort_on, Memᴰ-sort_on,
  exists_where, IsKeyed-unique, ok, err, strip, leb, ◌&&◌, length, Option-cases, find_where,
}
use kcatta.Agents.Rows.{
  Time, identity_not_found, value_error, AgentIdentity, IdentityRow, CertificateRow, Db, is_agent,
  of_agent, inconsistent, certificate_of, certificate_from_row, certificates_from_rows,
  generation_key, valid_certificate, all_chars, is_id_char, identity_row, identity_from_row,
}
use kcatta.Agents.Normalize.{normalize_agent_id}
use kcatta.Agents.Registry.{get}
use kcatta.Agents.Sound.Keys.{IsSound, identity_agent}
use kcatta.Agents.Sound.Staged.{is_agent-agent_id}
use kcatta.Agents.Sound.Activated.{of_agent-agent_id}
use kcatta.Agents.Reach.{Reach, registry-IsSound}

certificates_from_rows-ok :
    (rows : List CertificateRow)
    → ((c : CertificateRow) → Memᴰ c rows → valid_certificate (certificate_of c) ≡ true)
    → certificates_from_rows rows ≡ ok (map certificate_of rows)
unfolding certificates_from_rows certificate_from_row
certificates_from_rows-ok [] valid = refl
certificates_from_rows-ok (c ∷ rows) valid =
    rw (valid c (head refl), certificates_from_rows-ok rows (λ d m. valid d (tail m))) refl

none_inconsistent :
    (i : IdentityRow) (rows : List CertificateRow)
    → ((c : CertificateRow) → Memᴰ c rows → inconsistent i (certificate_of c) ≡ false)
    → exists_where (inconsistent i) (map certificate_of rows) ≡ false
unfolding exists_where
none_inconsistent i [] h = refl
none_inconsistent i (c ∷ rows) h =
    rw (h c (head refl), none_inconsistent i rows (λ d m. h d (tail m))) refl

consistent :
    (i : IdentityRow) (c : CertificateRow)
    → c.agent_id ≡ i.agent_id
    → c.generation ≤ i.generation
    → inconsistent i (certificate_of c) ≡ false
unfolding inconsistent
consistent i c e le = ground (arith, ≟_iff c.agent_id i.agent_id)

-- What `_identity_from_row` returns of a row.
abbrev pub identity_of : Db → IdentityRow → AgentIdentity
identity_of db row = record {
  agent_id = row.agent_id;
  target_id = row.target_id;
  canonical_host_id = row.canonical_host_id;
  scopes = row.scopes;
  state = row.state;
  generation = row.generation;
  created_at = row.created_at_us;
  updated_at = row.updated_at_us;
  revoked_at = row.revoked_at_us;
  certificates =
      map certificate_of (sort_on generation_key (select (of_agent row.agent_id) db.certificates));
}

module _ {now : Time} {db : Db} (s : IsSound now db) where
  rows_of : (i : IdentityRow) → List CertificateRow
  rows_of i = sort_on generation_key (select (of_agent i.agent_id) db.certificates)

  row_of :
      (i : IdentityRow) (c : CertificateRow)
      → Memᴰ c (rows_of i)
      → Memᴰ c db.certificates × (c.agent_id ≡ i.agent_id)
  unfolding rows_of
  row_of i c m =
      let (k, mine) =
        Memᴰ-select (of_agent i.agent_id) db.certificates
          (Memᴰ-sort_on generation_key (select (of_agent i.agent_id) db.certificates) m) in
      (k, of_agent-agent_id i.agent_id c mine)

  within :
      (i : IdentityRow)
      → Memᴰ i db.identities
      → (c : CertificateRow) → Memᴰ c (rows_of i)
      → inconsistent i (certificate_of c) ≡ false
  within i m c k =
      let (held, mine) = row_of i c k in
      let o = s.owned c held in
      let same =
        IsKeyed-unique identity_agent db.identities s.identity_keys.agents o.identity i o.present m
          (o.agent_id ∙ mine) in
      consistent i c mine (rw same at o.reached)

  pub identity_from_row-ok :
      (i : IdentityRow) → Memᴰ i db.identities → identity_from_row db i ≡ ok (identity_of db i)
  unfolding identity_from_row rows_of
  identity_from_row-ok i m =
      rw
        (
          certificates_from_rows-ok (rows_of i) (λ c k. s.metadata c (row_of i c k).0),
          s.fields i m,
          none_inconsistent i (rows_of i) (within i m),
        )
        refl

normalize_agent_id-cases :
    (agent_id : Text)
    → (normalize_agent_id agent_id ≡ err value_error)
      ⊎ ((normalized : Text) × (normalize_agent_id agent_id ≡ ok normalized))
unfolding normalize_agent_id
normalize_agent_id-cases agent_id =
    let s = strip agent_id in
    elim (Bool-cases (not (leb 1 (length s) && leb (length s) 128 && all_chars is_id_char s))) [
      | inl e ↦ inl (rw e refl)
      | inr e ↦ inr (s, rw e refl)
    ]

identity_row-cases :
    (db : Db) (agent_id : Text)
    → (identity_row db agent_id ≡ err identity_not_found)
      ⊎ ((i : IdentityRow) × (identity_row db agent_id ≡ ok i)
          × Memᴰ i db.identities
          × (i.agent_id ≡ agent_id))
unfolding identity_row
identity_row-cases db agent_id =
    elim (Option-cases (find_where (is_agent agent_id) db.identities)) [
      | inl e ↦ inl (rw e refl)
      | inr (i, e) ↦
          let (m, mine) = find_where-some (is_agent agent_id) db.identities e in
          inr (i, rw e refl, m, is_agent-agent_id agent_id i mine)
    ]

-- In every reachable state, `get` raises only ValueError, for an agent id that it cannot normalise,
-- or AgentIdentityNotFoundError; otherwise it returns the identity of the row of that agent id, with
-- all certificates of the agent in the order of their generations. The checks of the schema refuse no
-- row.
pub get-total :
    (sha256 : Text → Text) (now : Time) (db : Db) (agent_id : Text)
    → Reach sha256 now db
    → (normalize_agent_id agent_id ≡ err value_error)
      ⊎ ((get db agent_id ≡ err identity_not_found)
          ⊎ ((i : IdentityRow) × Memᴰ i db.identities
              × (normalize_agent_id agent_id ≡ ok i.agent_id)
              × (get db agent_id ≡ ok (identity_of db i))))
unfolding get
get-total sha256 now db agent_id reach = elim (normalize_agent_id-cases agent_id) [
  | inl e ↦ inl e
  | inr (id, e) ↦ inr (elim (identity_row-cases db id) [
    | inl f ↦ inl (rw (e, f) refl)
    | inr (i, f, m, same) ↦ inr (
      i,
      m,
      rw (e, same) refl,
      rw (e, f) (identity_from_row-ok (registry-IsSound sha256 now db reach) i m),
    )
  ])
]
