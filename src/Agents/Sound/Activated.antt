-- ===== src/Agents/Sound/Activated.antt =====
-- The writes of `activate` (form/src/kcatta_form/agent_identity_store.py) keep the invariant.
use kcatta.Prelude.{
  ◌≡◌, ◌≢◌, sym, ◌∙◌, ℕ, true, false, List, inl, inr, arith, Memᴰ, Text, ≟_iff, ==_iff,
  if◌then◌else◌, update_where, update_where-Memᴰ,
}
use kcatta.Agents.Rows.{
  Time, CertificateRow, Db, is_staged, is_active, is_revoked, of_agent, of_generation, is_agent,
}
use kcatta.Agents.Rotation.{
  in_state, overlaps, agent_overlaps, close_overlap, retire, make_active, staged_generation,
  retire_others, touch_identity, touched,
}
use kcatta.Agents.Effect.{SameCertificate}
use kcatta.Agents.Effect.Revocation.{touch-Touching}
use kcatta.Agents.Sound.Keys.{
  IsSound, Owner, IsSingle, IsSingle-of, HasKeys-update_where, HasCertificateKeys,
  HasCertificateKeys-update_where, fields-update_where, valid_certificate_same,
}
use kcatta.Agents.Sound.Rotated.{
  Memᴰ-rotated, rotated_row, rotated_row-SameCertificate, rotated_row-active, rotated_row-overlaps,
  rotated_row-staged, rotated_row-revoked, close-SameCertificate, retire-SameCertificate,
  make_active-SameCertificate,
}

pub of_agent-agent_id :
    (agent_id : Text) (c : CertificateRow) → (of_agent agent_id c ≡ true) → c.agent_id ≡ agent_id
unfolding of_agent
of_agent-agent_id agent_id c h = (≟_iff c.agent_id agent_id).0 h

of_agent-other :
    (agent_id : Text) (a b : CertificateRow)
    → of_agent agent_id a ≡ true
    → of_agent agent_id b ≡ false
    → a.agent_id ≢ b.agent_id
unfolding of_agent
of_agent-other agent_id a b p q e = absurd (let r = rw e at p in cc)

pub of_generation-both :
    (agent_id : Text) (generation : ℕ) (c : CertificateRow)
    → of_generation agent_id generation c ≡ true
    → (of_agent agent_id c ≡ true) × (c.generation ≡ generation)
unfolding of_generation of_agent
of_generation-both agent_id generation c h = ground (arith, ==_iff c.generation generation)

module _ (agent_id : Text) (generation : ℕ) (now until : Time) (db : Db) (s : IsSound now db) where
  abbrev pub after : List CertificateRow
  after =
      update_where (staged_generation agent_id generation) (make_active now)
        (retire_others agent_id now until db.certificates)

  -- Two rows of one agent after the update come from two rows of one agent.
  origin :
      (b : CertificateRow)
      → Memᴰ b after
      → (a : CertificateRow) × Memᴰ a db.certificates
        × (b ≡ rotated_row agent_id generation now until a)
        × SameCertificate a b
  origin b m =
      let (a, k, e) = Memᴰ-rotated agent_id generation now until db.certificates m in
      (a, k, e, rw e (rotated_row-SameCertificate agent_id generation now until a))

  same_generation :
      {a b a' b' : CertificateRow}
      → SameCertificate a a'
      → SameCertificate b b'
      → a'.agent_id ≡ b'.agent_id
      → (a.agent_id ≡ b.agent_id → a.generation ≡ b.generation)
      → a'.generation ≡ b'.generation
  same_generation p q e k =
      p.generation ∙ (k (sym p.agent_id ∙ (e ∙ q.agent_id)) ∙ sym q.generation)

  activated-active_once : IsSingle (λ c. is_active c.state) after
  activated-active_once x y m n p q e =
      let (a, k, made_a, sa) = origin x m in
      let (b, l, made_b, sb) = origin y n in
      same_generation sa sb e (λ same.
        elim (rotated_row-active agent_id generation now until a (rw made_a at p)) [
          | inl on_a ↦
              let (agent_a, gen_a) = of_generation-both agent_id generation a on_a in
              elim (rotated_row-active agent_id generation now until b (rw made_b at q)) [
                | inl on_b ↦ gen_a ∙ sym (of_generation-both agent_id generation b on_b).1
                | inr (off_b, _) ↦ absurd (of_agent-other agent_id a b agent_a off_b same)
              ]
          | inr (off_a, act_a) ↦
              elim (rotated_row-active agent_id generation now until b (rw made_b at q)) [
                | inl on_b ↦ absurd (
                    let (agent_b, _) = of_generation-both agent_id generation b on_b in
                    of_agent-other agent_id b a agent_b off_a (sym same))
                | inr (_, act_b) ↦ s.active_once a b k l act_a act_b same
              ]
        ])

  activated-overlap_once : IsSingle (overlaps now) after
  activated-overlap_once x y m n p q e =
      let (a, k, made_a, sa) = origin x m in
      let (b, l, made_b, sb) = origin y n in
      same_generation sa sb e (λ same.
        elim (rotated_row-overlaps agent_id generation now until a (rw made_a at p)) [
          | inl (agent_a, act_a) ↦
              elim (rotated_row-overlaps agent_id generation now until b (rw made_b at q)) [
                | inl (_, act_b) ↦ s.active_once a b k l act_a act_b same
                | inr (off_b, _) ↦ absurd (of_agent-other agent_id a b agent_a off_b same)
              ]
          | inr (off_a, over_a) ↦
              elim (rotated_row-overlaps agent_id generation now until b (rw made_b at q)) [
                | inl (agent_b, _) ↦ absurd (of_agent-other agent_id b a agent_b off_a (sym same))
                | inr (_, over_b) ↦ s.overlap_once a b k l over_a over_b same
              ]
        ])

  activated-keys : HasCertificateKeys after
  unfolding retire_others
  activated-keys =
      HasCertificateKeys-update_where (staged_generation agent_id generation) (make_active now)
        (λ c. make_active-SameCertificate agent_id generation now until c)
        (HasCertificateKeys-update_where (in_state is_active agent_id) (retire now until)
          (λ c. retire-SameCertificate agent_id generation now until c)
          (HasCertificateKeys-update_where (agent_overlaps agent_id now) (close_overlap now)
            (λ c. close-SameCertificate agent_id generation now until c) s.certificate_keys))

  touched-Owner :
      (a b : CertificateRow)
      → SameCertificate a b
      → is_revoked b.state ≡ is_revoked a.state
      → Owner db.identities a
      → Owner (touched agent_id now db.identities) b
  unfolding touched
  touched-Owner a b same dead o = record {
    identity = if is_agent agent_id o.identity then touch_identity now o.identity else o.identity;
    present = update_where-Memᴰ (is_agent agent_id) (touch_identity now) o.present;
    agent_id = ground (arith, o.agent_id, same.agent_id);
    reached = ground (arith, o.reached, same.generation);
    alive = ground (arith, o.alive, dead);
  }

  pub activated-IsSound :
      IsSound now (record { identities = touched agent_id now db.identities; certificates = after })
  unfolding touched
  activated-IsSound = record {
    identity_keys =
        HasKeys-update_where (is_agent agent_id) (touch_identity now) (touch-Touching now).same
          s.identity_keys;
    certificate_keys = activated-keys;
    owned = λ b m.
        let (a, k, made, same) = origin b m in
        touched-Owner a b same (rw made (rotated_row-revoked agent_id generation now until a))
          (s.owned a k);
    staged_once =
        IsSingle-of (λ c. is_staged c.state) (λ c. is_staged c.state)
          (λ b m on.
            let (a, k, made, same) = origin b m in
            (a, k, rotated_row-staged agent_id generation now until a (rw made at on), same))
          s.staged_once;
    active_once = activated-active_once;
    overlap_once = activated-overlap_once;
    fields =
        fields-update_where (is_agent agent_id) (touch_identity now) (touch-Touching now).same
          s.fields;
    metadata = λ b m.
        let (a, k, made, same) = origin b m in
        rw (valid_certificate_same a b same) (s.metadata a k);
  }
