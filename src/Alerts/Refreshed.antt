-- ===== src/Alerts/Refreshed.antt =====
-- What the sweep over the evidence leaves behind (alerts.py: `run_vault_freshness`).
use bid_pilot.Prelude.{
  ℕ, ◌≡◌, refl, ap, sym, ◌∙◌, true, false, arith, String, Option, none, some, List, [], ◌∷◌,
  update_where, map, elem, if◌then◌else◌, Bool-cases, inl, inr, str_eq, str_eq_comm,
}
use bid_pilot.Prelude.Outcome.{ok}
use bid_pilot.Store.{Env, Db}
use bid_pilot.Store.Rows.{EvidenceStatus, valid, expiring, expired, EvidenceRow}
use bid_pilot.Tenancy.{all_org_ids, set_org_context, assert_policy_bound}
use bid_pilot.Alerts.Vault.{
  Counts, no_counts, status_on, same_status, is_misclassified, reclassify, reclassify_evidence,
  evidence_counts, refresh, run_vault_freshness, today_of, horizon_of,
}

same_status→≡ : (a b : EvidenceStatus) → same_status a b ≡ true → a ≡ b
unfolding same_status
same_status→≡ valid valid h = refl
same_status→≡ valid expiring h = cc
same_status→≡ valid expired h = cc
same_status→≡ expiring valid h = cc
same_status→≡ expiring expiring h = refl
same_status→≡ expiring expired h = cc
same_status→≡ expired valid h = cc
same_status→≡ expired expiring h = cc
same_status→≡ expired expired h = refl

-- The row of a listed tenant has the status of its date; any other row is as it was.
unfoldable pub refreshed : ℕ → ℕ → List String → EvidenceRow → EvidenceRow
refreshed today horizon orgs e = if elem e.org_id orgs then reclassify today horizon e else e

list_cong : {x y : EvidenceRow} {xs ys : List EvidenceRow} → x ≡ y → xs ≡ ys → x ∷ xs ≡ y ∷ ys
list_cong a b = cc

module _ (today horizon : ℕ) where
  reclassify-same :
      (e : EvidenceRow)
      → same_status e.status (status_on today horizon e.expires_at) ≡ true
      → reclassify today horizon e ≡ e
  reclassify-same e h = ap (λ s. record e { status = s }) (sym (same_status→≡ _ _ h))

  settled :
      (orgs : List String) (e : EvidenceRow)
      → refreshed today horizon orgs (reclassify today horizon e) ≡ reclassify today horizon e
  unfolding refreshed
  settled orgs e = ground arith

  refreshed-cons :
      (org : String) (orgs : List String) (e : EvidenceRow)
      → refreshed today horizon orgs
          (if is_misclassified today horizon (some org) e then reclassify today horizon e else e)
        ≡ refreshed today horizon (org ∷ orgs) e
  unfolding refreshed is_misclassified
  refreshed-cons org orgs e =
      elim (Bool-cases (same_status e.status (status_on today horizon e.expires_at))) [
        | inl right ↦ rw right (ground (arith, str_eq_comm org e.org_id, reclassify-same e right))
        | inr wrong ↦ rw wrong (elim (Bool-cases (str_eq e.org_id org)) [
          | inl mine ↦ rw (mine, str_eq_comm org e.org_id, mine) (settled orgs e)
          | inr other ↦ rw (other, str_eq_comm org e.org_id, other) refl
        ])
      ]

  refreshed-nil : (es : List EvidenceRow) → map (refreshed today horizon []) es ≡ es
  unfolding refreshed
  refreshed-nil [] = refl
  refreshed-nil (e ∷ es) = ap (λ l. e ∷ l) (refreshed-nil es)

  map-refreshed :
      (org : String) (orgs : List String) (es : List EvidenceRow)
      → map
          (refreshed today horizon orgs)
          (update_where (is_misclassified today horizon (some org)) (reclassify today horizon) es)
        ≡ map (refreshed today horizon (org ∷ orgs)) es
  map-refreshed org orgs [] = refl
  map-refreshed org orgs (e ∷ es) =
      list_cong (refreshed-cons org orgs e) (map-refreshed org orgs es)

  refresh-refreshed :
      (orgs : List String) (n : ℕ) (counts : Counts) (db : Db)
      → (r : ℕ × Counts) × (ctx : Option String) × (refresh
            (some false)
            today
            horizon
            n
            counts
            orgs
            db
          ≡ ok (
            r,
            record db {
              evidences = map (refreshed today horizon orgs) db.evidences;
              org_context = ctx;
            },
          ))
  unfolding refresh set_org_context assert_policy_bound reclassify_evidence evidence_counts
  refresh-refreshed [] n counts db = (
    (n, counts),
    db.org_context,
    ap (λ es. ok ((n, counts), record db { evidences = es })) (sym (refreshed-nil db.evidences)),
  )
  refresh-refreshed (org ∷ orgs) n counts db =
      let es =
        update_where (is_misclassified today horizon (some org)) (reclassify today horizon)
          db.evidences in
      let (r, ctx, e) =
        refresh-refreshed orgs _ _ (record db { evidences = es; org_context = some org }) in
      (
        r,
        ctx,
        e
            ∙ ap (λ es. ok (r, record db { evidences = es; org_context = ctx }))
                (map-refreshed org orgs db.evidences),
      )

-- Under a role that the row policies bind the sweep over the evidence returns. Afterwards each row of an
-- organisation has the status that its date of expiry has today, and nothing else has changed but the
-- context, which is cleared.
pub run_vault_freshness-refreshed :
    (env : Env) (db : Db)
    → (r : ℕ × Counts) × (run_vault_freshness (some false) env db
        ≡ ok (
          r,
          record db {
            evidences =
                map (refreshed (today_of env) (horizon_of env) (all_org_ids db)) db.evidences;
            org_context = none;
          },
        ))
unfolding run_vault_freshness set_org_context assert_policy_bound
run_vault_freshness-refreshed env db =
    let (r, ctx, e) =
      refresh-refreshed (today_of env) (horizon_of env) (all_org_ids db) 0 no_counts db in
    (r, rw e refl)
