-- ===== src/Alerts/Escalate.antt =====
-- The escalation of alerts that nobody acknowledged (alerts.py: `escalate_unacknowledged`,
-- `_escalate_for_org`).
use Prim.Native.String.{◌++◌ as cat}
use bid_pilot.Prelude.{
  ℕ, ◌+◌, ◌*◌, Bool, true, false, ◌&&◌, not, String, Option, none, some, List, [], ◌∷◌, ◌++◌, ltb,
  any, select, length, str_eq, or_else,
}
use bid_pilot.Store.{Env, M, return, ◌>>=◌, ◌>>◌, second}
use bid_pilot.Store.Rows.{Value, Payload, text, null, NotificationRow}
use bid_pilot.Queue.Defs.{new_id, enqueue}
use bid_pilot.Tenancy.{Role, set_org_context, all_org_ids, is_visible}

-- ESCALATION_AFTER
abbrev pub escalation_after : ℕ
escalation_after = 24 * 3600 * second

-- An equation of texts in SQL; a NULL passes no comparison.
abbrev pub same_text : Option String → Option String → Bool
same_text (some a) (some b) = str_eq a b
same_text _ _ = false

abbrev pub is_missing : Option ℕ → Bool
is_missing none = true
is_missing (some t) = false

-- `sent_at < now() - interval`
abbrev pub sent_before : Option ℕ → ℕ → Bool
sent_before none now = false
sent_before (some t) now = ltb (t + escalation_after) now

-- A notification that the subquery finds.
unfoldable pub escalates : Option String → Option String → NotificationRow → Bool
escalates org tender e =
    is_visible org e.org_id && str_eq e.kind "deadline.escalated" && same_text e.tender_id tender

-- The WHERE clause of the query, over all notifications.
unfoldable pub is_unacknowledged :
    Env → Option String → List NotificationRow → NotificationRow → Bool
is_unacknowledged env org all n =
    is_visible org n.org_id
    && str_eq n.kind "deadline.j3"
    && is_missing n.ack_at
    && sent_before n.sent_at env.now
    && not (any (escalates org n.tender_id) all)

-- The notification that escalates another has its payload.
abbrev pub escalation : Env → NotificationRow → ℕ → NotificationRow
escalation env row n = record {
  id = new_id env "ntf" n;
  org_id = row.org_id;
  kind = "deadline.escalated";
  tender_id = row.tender_id;
  title = row.title;
  deadline_at = row.deadline_at;
  offset_working_days = row.offset_working_days;
  created_at = env.now;
  sent_at = none;
  ack_at = none;
}

abbrev pub insert_escalation : Env → NotificationRow → M (Unit {0})
insert_escalation env row db = return tt (record db {
  drawn = db.drawn + 1;
  notifications = db.notifications ++ escalation env row db.drawn ∷ [];
})

abbrev pub value_of : Option String → Value
value_of none = null
value_of (some s) = text s

abbrev pub escalation_payload : NotificationRow → Payload
escalation_payload row =
    ("kind", text "deadline.escalated")
    ∷ ("org_id", text row.org_id)
    ∷ ("tender_id", value_of row.tender_id)
    ∷ []

-- The loop over the rows of the query. A missing tender is written as `None` in the key.
unfoldable pub escalate_rows : Env → List NotificationRow → M (Unit {0})
escalate_rows env [] = return tt
escalate_rows env (row ∷ rows) = do
  insert_escalation env row
  enqueue env "notify.send" (escalation_payload row)
      (cat (or_else row.tender_id "None") ":escalated") "1"
  escalate_rows env rows

unfoldable pub escalate_for_org : Env → M ℕ
escalate_for_org env db =
    let stale = select (is_unacknowledged env db.org_context db.notifications) db.notifications in
    (do escalate_rows env stale; return (length stale)) db

unfoldable pub escalate_orgs : Role → Env → ℕ → List String → M ℕ
escalate_orgs role env escalated [] = return escalated
escalate_orgs role env escalated (org ∷ orgs) = do
  set_org_context role (some org)
  n ← escalate_for_org env
  escalate_orgs role env (escalated + n) orgs

unfoldable pub escalate_unacknowledged : Role → Env → M ℕ
escalate_unacknowledged role env db =
    (do
      escalated ← escalate_orgs role env 0 (all_org_ids db)
      set_org_context role none
      return escalated)
      db
