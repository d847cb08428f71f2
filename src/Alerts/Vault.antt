-- ===== src/Alerts/Vault.antt =====
-- The statuses of evidence (alerts.py: `run_vault_freshness`, `_reclassify_evidence`,
-- `_evidence_counts`). A date is the number of its day.
use bid_pilot.Prelude.{
  ℕ, ◌+◌, ◌*◌, ◌/◌, Bool, true, false, ◌&&◌, not, String, Option, none, some, List, [], ◌∷◌, ltb,
  leb, select, update_where, length, if◌then◌else◌,
}
use bid_pilot.Store.{Env, M, return, ◌>>=◌, ◌>>◌, day}
use bid_pilot.Store.Rows.{EvidenceStatus, valid, expiring, expired, EvidenceRow}
use bid_pilot.Tenancy.{Role, set_org_context, all_org_ids, is_visible}

-- EVIDENCE_EXPIRY_WINDOW_DAYS
abbrev pub evidence_expiry_window_days : ℕ
evidence_expiry_window_days = 30

-- The CASE expression, with the dates `today` and `horizon`.
unfoldable pub status_on : ℕ → ℕ → Option ℕ → EvidenceStatus
status_on today horizon none = valid
status_on today horizon (some expires_at) =
    if ltb expires_at today then expired else if leb expires_at horizon then expiring else valid

unfoldable pub same_status : EvidenceStatus → EvidenceStatus → Bool
same_status valid valid = true
same_status expiring expiring = true
same_status expired expired = true
same_status _ _ = false

-- The rows that the UPDATE changes: `status IS DISTINCT FROM …`, under the policy.
unfoldable pub is_misclassified : ℕ → ℕ → Option String → EvidenceRow → Bool
is_misclassified today horizon org e =
    is_visible org e.org_id && not (same_status e.status (status_on today horizon e.expires_at))

abbrev pub reclassify : ℕ → ℕ → EvidenceRow → EvidenceRow
reclassify today horizon e = record e { status = status_on today horizon e.expires_at }

unfoldable pub reclassify_evidence : ℕ → ℕ → M ℕ
reclassify_evidence today horizon db =
    let wrong = is_misclassified today horizon db.org_context in
    return (length (select wrong db.evidences))
      (record db { evidences = update_where wrong (reclassify today horizon) db.evidences })

-- `SELECT status, count(*) … GROUP BY status`, one number for each status; a status without rows has
-- no group, for which the number is 0.
pub record Counts : Type 0 where
  pub valid_count : ℕ
  pub expiring_count : ℕ
  pub expired_count : ℕ

unfoldable pub count_status : Option String → List EvidenceRow → EvidenceStatus → ℕ
count_status org es status =
    length (select (λ e. is_visible org e.org_id && same_status e.status status) es)

unfoldable pub evidence_counts : M Counts
evidence_counts db =
    return
      (record {
        valid_count = count_status db.org_context db.evidences valid;
        expiring_count = count_status db.org_context db.evidences expiring;
        expired_count = count_status db.org_context db.evidences expired;
      })
      db

-- `counts[status] = counts.get(status, 0) + count`
abbrev pub add_counts : Counts → Counts → Counts
add_counts a b = record {
  valid_count = a.valid_count + b.valid_count;
  expiring_count = a.expiring_count + b.expiring_count;
  expired_count = a.expired_count + b.expired_count;
}

-- The loop over the tenants.
unfoldable pub refresh : Role → ℕ → ℕ → ℕ → Counts → List String → M (ℕ × Counts)
refresh role today horizon reclassified counts [] = return (reclassified, counts)
refresh role today horizon reclassified counts (org ∷ orgs) = do
  set_org_context role (some org)
  n ← reclassify_evidence today horizon
  here ← evidence_counts
  refresh role today horizon (reclassified + n) (add_counts counts here) orgs

abbrev pub no_counts : Counts
no_counts = record { valid_count = 0; expiring_count = 0; expired_count = 0 }

abbrev pub today_of : Env → ℕ
today_of env = env.now / day

abbrev pub horizon_of : Env → ℕ
horizon_of env = (env.now + evidence_expiry_window_days * day) / day

unfoldable pub run_vault_freshness : Role → Env → M (ℕ × Counts)
run_vault_freshness role env db =
    (do
      result ← refresh role (today_of env) (horizon_of env) 0 no_counts (all_org_ids db)
      set_org_context role none
      return result)
      db
