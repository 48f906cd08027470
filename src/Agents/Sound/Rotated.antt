-- ===== src/Agents/Sound/Rotated.antt =====
-- What the three UPDATEs of `activate` (form/src/kcatta_form/agent_identity_store.py) make of a row.
use kcatta.Prelude.{
  ◌≡◌, refl, ap, ◌∙◌, ℕ, true, false, List, ◌⊎◌, arith, Memᴰ, Text, if◌then◌else◌, update_where,
  update_where-Memᴰ, Memᴰ-update_where,
}
use kcatta.Agents.Rows.{
  Time, CertificateRow, is_staged, is_active, is_revoked, of_agent, of_generation,
}
use kcatta.Agents.Rotation.{
  in_state, overlaps, agent_overlaps, close_overlap, retire, make_active, staged_generation,
  retire_others,
}
use kcatta.Agents.Effect.{SameCertificate}
use kcatta.Agents.Sound.Keys.{SameCertificate-trans, SameCertificate-if}

module _ (agent_id : Text) (generation : ℕ) (now until : Time) where
  -- What the three UPDATEs make of one row.
  unfoldable pub closed_row : CertificateRow → CertificateRow
  closed_row c = if agent_overlaps agent_id now c then close_overlap now c else c

  unfoldable pub retired_row : CertificateRow → CertificateRow
  retired_row c = if in_state is_active agent_id c then retire now until c else c

  unfoldable pub activated_row : CertificateRow → CertificateRow
  activated_row c = if staged_generation agent_id generation c then make_active now c else c

  unfoldable pub rotated_row : CertificateRow → CertificateRow
  unfolding closed_row retired_row activated_row
  rotated_row c = activated_row (retired_row (closed_row c))

  pub Memᴰ-rotated :
      {b : CertificateRow} (certificates : List CertificateRow)
      → Memᴰ b (
          update_where
            (staged_generation agent_id generation)
            (make_active now)
            (retire_others agent_id now until certificates))
      → (a : CertificateRow) × Memᴰ a certificates × (b ≡ rotated_row a)
  unfolding rotated_row retire_others
  Memᴰ-rotated certificates m =
      let (x, k, e) =
        Memᴰ-update_where (staged_generation agent_id generation) (make_active now)
          (retire_others agent_id now until certificates) m in
      let (y, l, d) =
        Memᴰ-update_where (in_state is_active agent_id) (retire now until)
          (update_where (agent_overlaps agent_id now) (close_overlap now) certificates) k in
      let (z, n, c) =
        Memᴰ-update_where (agent_overlaps agent_id now) (close_overlap now) certificates l in
      (z, n, e ∙ ap activated_row (d ∙ ap retired_row c))

  pub rotated-Memᴰ :
      {a : CertificateRow} {certificates : List CertificateRow}
      → Memᴰ a certificates
      → Memᴰ (rotated_row a) (
          update_where
            (staged_generation agent_id generation)
            (make_active now)
            (retire_others agent_id now until certificates))
  unfolding rotated_row retire_others
  rotated-Memᴰ m = update_where-Memᴰ (staged_generation agent_id generation) (make_active now) (
      update_where-Memᴰ (in_state is_active agent_id) (retire now until)
        (update_where-Memᴰ (agent_overlaps agent_id now) (close_overlap now) m))

  pub close-SameCertificate : (c : CertificateRow) → SameCertificate c (close_overlap now c)
  close-SameCertificate c = record {
    agent_id = refl;
    generation = refl;
    serial_number = refl;
    cert_sha256 = refl;
    spki_sha256 = refl;
    certificate_pem = refl;
    not_before = refl;
    not_after = refl;
    created_at = refl;
  }

  pub retire-SameCertificate : (c : CertificateRow) → SameCertificate c (retire now until c)
  retire-SameCertificate c = record {
    agent_id = refl;
    generation = refl;
    serial_number = refl;
    cert_sha256 = refl;
    spki_sha256 = refl;
    certificate_pem = refl;
    not_before = refl;
    not_after = refl;
    created_at = refl;
  }

  pub make_active-SameCertificate : (c : CertificateRow) → SameCertificate c (make_active now c)
  make_active-SameCertificate c = record {
    agent_id = refl;
    generation = refl;
    serial_number = refl;
    cert_sha256 = refl;
    spki_sha256 = refl;
    certificate_pem = refl;
    not_before = refl;
    not_after = refl;
    created_at = refl;
  }

  pub rotated_row-SameCertificate : (c : CertificateRow) → SameCertificate c (rotated_row c)
  unfolding rotated_row
  rotated_row-SameCertificate c =
      SameCertificate-trans
        (SameCertificate-if (agent_overlaps agent_id now c) c (close_overlap now c)
          (close-SameCertificate c))
        (SameCertificate-trans
          (SameCertificate-if (in_state is_active agent_id (closed_row c)) (closed_row c)
            (retire now until (closed_row c)) (retire-SameCertificate (closed_row c)))
          (SameCertificate-if (staged_generation agent_id generation (retired_row (closed_row c)))
            (retired_row (closed_row c)) (make_active now (retired_row (closed_row c)))
            (make_active-SameCertificate (retired_row (closed_row c)))))

  -- A row after `activate` that is active, or in its overlap.
  pub rotated_row-active :
      (c : CertificateRow)
      → is_active (rotated_row c).state ≡ true
      → (of_generation agent_id generation c ≡ true)
        ⊎ ((of_agent agent_id c ≡ false) × (is_active c.state ≡ true))
  unfolding rotated_row closed_row retired_row activated_row agent_overlaps in_state
      staged_generation of_generation of_agent overlaps
  rotated_row-active c h = ground arith

  pub rotated_row-overlaps :
      (c : CertificateRow)
      → overlaps now (rotated_row c) ≡ true
      → ((of_agent agent_id c ≡ true) × (is_active c.state ≡ true))
        ⊎ ((of_agent agent_id c ≡ false) × (overlaps now c ≡ true))
  unfolding rotated_row closed_row retired_row activated_row agent_overlaps in_state
      staged_generation of_generation of_agent overlaps
  rotated_row-overlaps c h = ground arith

  pub rotated_row-staged :
      (c : CertificateRow) → is_staged (rotated_row c).state ≡ true → is_staged c.state ≡ true
  unfolding rotated_row closed_row retired_row activated_row agent_overlaps in_state
      staged_generation of_generation of_agent overlaps
  rotated_row-staged c h = ground arith

  pub rotated_row-revoked :
      (c : CertificateRow) → is_revoked (rotated_row c).state ≡ is_revoked c.state
  unfolding rotated_row closed_row retired_row activated_row agent_overlaps in_state
      staged_generation of_generation of_agent overlaps
  rotated_row-revoked c = ground arith
