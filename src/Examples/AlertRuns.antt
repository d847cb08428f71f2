-- ===== src/Examples/AlertRuns.antt =====
-- Runs of the alerts.
use bid_pilot.Prelude.{
  ℕ, ◌+◌, ◌*◌, ◌≡◌, refl, true, false, arith, String, Option, none, some, [], ◌∷◌, ◌++◌, List,
  select, map, length, All, is_some,
}
use bid_pilot.Prelude.Outcome.{ok}
use bid_pilot.Store.{Env, Db, day, second}
use bid_pilot.Store.Rows.{TenderRow, NotificationRow, analysis, valid}
use bid_pilot.Scheduler.Text.{str}
use bid_pilot.Tenancy.{set_org_context, assert_policy_bound}
use bid_pilot.Alerts.Days.{
  working_days_before, working_days_before-Precedes, count_back, is_working_day, Precedes,
}
use bid_pilot.Alerts.Due.{
  DueAlert, Sent, first_due, due_of_deadline, due_deadline_alerts, was_sent, kind_of_offset,
  alerts_of, alert, deadline_alert_offsets, Fires, due_of_deadline-Fires,
}
use bid_pilot.Alerts.Run.{
  collect, read_tenant, is_pursued, is_open_stage, sent_pairs, is_deadline_kind, has_prefix,
  pair_of, run_deadline_alerts,
}
use bid_pilot.Alerts.Raised.{Raised, run_deadline_alerts-Raised}
use bid_pilot.Alerts.Vault.{Counts, run_vault_freshness, today_of, horizon_of}
use bid_pilot.Alerts.Refreshed.{refreshed, run_vault_freshness-refreshed}
use bid_pilot.Alerts.Escalate.{escalate_for_org, is_unacknowledged}
use bid_pilot.Alerts.Escalated.{OneEach, escalate_for_org-once}
use bid_pilot.Examples.Samples.{org_row, at, empty}

program : Unit {0}
unfolding working_days_before count_back is_working_day first_due due_of_deadline
    due_deadline_alerts was_sent kind_of_offset alerts_of str collect read_tenant is_pursued
    is_open_stage sent_pairs is_deadline_kind has_prefix pair_of set_org_context assert_policy_bound
program = tt

-- A Monday, five seconds after midnight, and the Wednesday before it.
abbrev monday : ℕ
monday = 70 * day + 5 * second

abbrev wednesday : ℕ
wednesday = 65 * day + 5 * second

three_days_before : working_days_before monday 3 ≡ ok wednesday
unfolding program
three_days_before = refl

working_days_before-Precedes_example :
    (m : ℕ) × (working_days_before monday 3 ≡ ok m) × Precedes monday 3 m
working_days_before-Precedes_example = working_days_before-Precedes monday 3 (omega arith)

abbrev tender : TenderRow
tender = record {
  id = "t1";
  org_id = "o1";
  title = none;
  deadline_at = some monday;
  stage = analysis;
}

-- Three working days before the deadline the alert of 14 days goes first.
first_of_four : due_deadline_alerts wednesday [] (tender ∷ []) ≡ ok (alert tender monday 14 ∷ [])
unfolding program
first_of_four = refl

due_of_deadline-Fires_example :
    (found : Option ℕ) × (due_of_deadline wednesday [] tender (some monday)
      ≡ ok (alerts_of tender monday found))
    × Fires wednesday monday [] "t1" deadline_alert_offsets found
due_of_deadline-Fires_example =
    due_of_deadline-Fires wednesday [] tender monday (omega arith) (omega arith)

abbrev earlier : Sent
earlier = ("t1", "deadline.j14") ∷ []

abbrev next_alert : DueAlert
next_alert = alert tender monday 7

second_of_four : due_deadline_alerts wednesday earlier (tender ∷ []) ≡ ok (next_alert ∷ [])
unfolding program
second_of_four = refl

abbrev notice : String → Option ℕ → NotificationRow
notice kind sent = record {
  id = "n1";
  org_id = "o1";
  kind = kind;
  tender_id = some "t1";
  title = "";
  deadline_at = some monday;
  offset_working_days = none;
  created_at = 0;
  sent_at = sent;
  ack_at = none;
}

abbrev tenants : Db
tenants = record empty {
  orgs = org_row "o1" ∷ [];
  tenders = tender ∷ [];
  notifications = notice "deadline.j14" none ∷ [];
}

abbrev on_wednesday : Env
on_wednesday = record (at 0) { now = wednesday }

collected :
    collect (some false) on_wednesday ("o1" ∷ []) tenants
    ≡ ok ((tender ∷ [], earlier), record tenants { org_context = some "o1" })
unfolding program
collected = refl

run_deadline_alerts-Raised_example :
    (db' : Db) × (run_deadline_alerts (some false) on_wednesday tenants ≡ ok ((1, 1), db'))
    × Raised (next_alert ∷ []) tenants db'
    × (db'.org_context ≡ none)
run_deadline_alerts-Raised_example =
    run_deadline_alerts-Raised on_wednesday tenants (tender ∷ []) earlier (some "o1")
      (next_alert ∷ []) collected second_of_four

abbrev insured : Db
insured = record empty {
  orgs = org_row "o1" ∷ [];
  evidences =
      record { id = "e1"; org_id = "o1"; expires_at = some 80; status = valid }
      ∷ record { id = "e2"; org_id = "o2"; expires_at = some 3; status = valid }
      ∷ [];
}

run_vault_freshness-refreshed_example :
    (r : ℕ × Counts) × (run_vault_freshness (some false) on_wednesday insured
      ≡ ok (
        r,
        record insured {
          evidences =
              map
                (refreshed (today_of on_wednesday) (horizon_of on_wednesday) ("o1" ∷ []))
                insured.evidences;
          org_context = none;
        },
      ))
run_vault_freshness-refreshed_example = run_vault_freshness-refreshed on_wednesday insured

abbrev ignored : Db
ignored = record tenants {
  org_context = some "o1";
  notifications = notice "deadline.j3" (some 0) ∷ [];
}

escalate_for_org-once_example :
    let stale =
      select
        (is_unacknowledged on_wednesday (some "o1") ignored.notifications)
        ignored.notifications in
    (db' : Db) × (added : List NotificationRow) × (escalate_for_org on_wednesday ignored
      ≡ ok (length stale, db'))
    × (db'.notifications ≡ ignored.notifications ++ added)
    × OneEach stale added
    × All
        (λ row.
          is_unacknowledged on_wednesday (some "o1") ignored.notifications row ≡ true
          → is_some row.tender_id ≡ true
          → is_unacknowledged (at 99) db'.org_context db'.notifications row ≡ false)
        ignored.notifications
escalate_for_org-once_example = escalate_for_org-once on_wednesday (at 99) ignored
