-- ===== src/Agents/Sound/Registered.antt =====
-- The INSERT of `get_or_create` (form/src/kcatta_form/agent_identity_store.py) keeps the invariant.
use kcatta.Prelude.{
  ◌≡◌, ◌≢◌, true, false, ◌∷◌, arith, Memᴰ, head, tail, ≟_iff, exists_where, exists_where-false,
}
use kcatta.Agents.Rows.{Time, IdentityRow, Db, valid_fields}
use kcatta.Agents.Registry.{collides}
use kcatta.Agents.Sound.Keys.{IsSound}

-- A row that shares no unique column with the new one.
distinct :
    (new i : IdentityRow)
    → collides new i ≡ false
    → (i.agent_id ≢ new.agent_id)
      × (i.target_id ≢ new.target_id)
      × (i.canonical_host_id ≢ new.canonical_host_id)
unfolding collides
distinct new i h = (
  λ e. absurd (ground (arith, ≟_iff i.agent_id new.agent_id)),
  λ e. absurd (ground (arith, ≟_iff i.target_id new.target_id)),
  λ e. absurd (ground (arith, ≟_iff i.canonical_host_id new.canonical_host_id)),
)

pub registered-IsSound :
    {now : Time} {db : Db} (new : IdentityRow)
    → exists_where (collides new) db.identities ≡ false
    → valid_fields new ≡ true
    → IsSound now db
    → IsSound now (record db { identities = new ∷ db.identities })
registered-IsSound {now} {db} new free valid s =
    let apart = λ (i : IdentityRow) (m : Memᴰ i db.identities).
      distinct new i (exists_where-false (collides new) free m) in
    record {
      identity_keys = record {
        agents = (λ i m. (apart i m).0, s.identity_keys.agents);
        targets = (λ i m. (apart i m).1, s.identity_keys.targets);
        hosts = (λ i m. (apart i m).2, s.identity_keys.hosts);
      };
      certificate_keys = s.certificate_keys;
      owned = λ c m.
          let o = s.owned c m in
          record {
            identity = o.identity;
            present = tail o.present;
            agent_id = o.agent_id;
            reached = o.reached;
            alive = o.alive;
          };
      staged_once = s.staged_once;
      active_once = s.active_once;
      overlap_once = s.overlap_once;
      fields = λ i m. elim m [ head e ↦ rw e valid | tail k ↦ s.fields i k ];
      metadata = s.metadata;
    }
