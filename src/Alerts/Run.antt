-- ===== src/Alerts/Run.antt =====
-- The sweep for deadline alerts over all tenants (alerts.py: `run_deadline_alerts`).
use Prim.Native.String.{◌++◌ as cat}
use bid_pilot.Prelude.{
  ℕ, ◌+◌, Bool, true, false, ◌&&◌, String, Option, none, some, List, [], ◌∷◌, ◌++◌, ◌==◌, ltb,
  select, length, if◌then◌else◌,
}
use bid_pilot.Store.{Env, M, return, lift, ◌>>=◌, ◌>>◌}
use bid_pilot.Store.Rows.{Payload, text, TenderStage, submitted, closed, TenderRow, NotificationRow}
use bid_pilot.Queue.Defs.{new_id, enqueue}
use bid_pilot.Scheduler.Text.{codes}
use bid_pilot.Tenancy.{Role, set_org_context, all_org_ids, is_visible}
use bid_pilot.Alerts.Due.{DueAlert, Sent, notification_kind, due_deadline_alerts}

-- `t.stage NOT IN ('submitted', 'closed')`
unfoldable pub is_open_stage : TenderStage → Bool
is_open_stage submitted = false
is_open_stage closed = false
is_open_stage _ = true

abbrev pub is_after : Option ℕ → ℕ → Bool
is_after none now = false
is_after (some t) now = ltb now t

-- The WHERE clause of the query for tenders, with the policy.
unfoldable pub is_pursued : Env → Option String → TenderRow → Bool
unfolding is_open_stage
is_pursued env org t =
    is_visible org t.org_id && is_after t.deadline_at env.now && is_open_stage t.stage

-- `kind LIKE 'deadline.j%'`, on code points
unfoldable pub has_prefix : List ℕ → List ℕ → Bool
has_prefix [] cs = true
has_prefix (p ∷ ps) [] = false
has_prefix (p ∷ ps) (c ∷ cs) = p == c && has_prefix ps cs

unfoldable pub is_deadline_kind : String → Bool
unfolding has_prefix
is_deadline_kind kind = has_prefix (codes "deadline.j") (codes kind)

-- A notification without a tender, or with an empty id, is left out.
unfoldable pub pair_of : NotificationRow → Option String → Sent
pair_of n none = []
pair_of n (some String.[]) = []
pair_of n (some tender) = (tender, n.kind) ∷ []

unfoldable pub sent_pairs : Option String → List NotificationRow → Sent
unfolding is_deadline_kind pair_of
sent_pairs org [] = []
sent_pairs org (n ∷ ns) =
    let rest = sent_pairs org ns in
    if is_visible org n.org_id && is_deadline_kind n.kind
    then pair_of n n.tender_id ++ rest
    else rest

-- The two queries under the current context.
unfoldable pub read_tenant : Env → M (List TenderRow × Sent)
read_tenant env db =
    return
      (
        select (is_pursued env db.org_context) db.tenders,
        sent_pairs db.org_context db.notifications,
      )
      db

-- The loop over the tenants that collects their tenders and what was sent.
unfoldable pub collect : Role → Env → List String → M (List TenderRow × Sent)
collect role env [] = return ([], [])
collect role env (org ∷ orgs) = do
  set_org_context role (some org)
  (tenders, sent) ← read_tenant env
  (more_tenders, more_sent) ← collect role env orgs
  return (tenders ++ more_tenders, sent ++ more_sent)

-- The notification of an alert.
abbrev pub notification : Env → DueAlert → ℕ → NotificationRow
notification env alert n = record {
  id = new_id env "ntf" n;
  org_id = alert.org_id;
  kind = notification_kind alert;
  tender_id = some alert.tender_id;
  title = alert.title;
  deadline_at = some alert.deadline_at;
  offset_working_days = some alert.offset_days;
  created_at = env.now;
  sent_at = none;
  ack_at = none;
}

abbrev pub insert_notification : Env → DueAlert → M (Unit {0})
insert_notification env alert db = return tt (record db {
  drawn = db.drawn + 1;
  notifications = db.notifications ++ notification env alert db.drawn ∷ [];
})

abbrev pub send_payload : DueAlert → Payload
send_payload alert =
    ("kind", text (notification_kind alert))
    ∷ ("tender_id", text alert.tender_id)
    ∷ ("org_id", text alert.org_id)
    ∷ []

-- The body of the loop over the due alerts.
unfoldable pub raise_alert : Role → Env → DueAlert → M (Unit {0})
raise_alert role env alert = do
  set_org_context role (some alert.org_id)
  insert_notification env alert
  enqueue env "notify.send" (send_payload alert)
      (cat alert.tender_id (cat ":" (notification_kind alert))) "1"
  return tt

unfoldable pub raise_alerts : Role → Env → List DueAlert → M (Unit {0})
raise_alerts role env [] = return tt
raise_alerts role env (alert ∷ alerts) = do raise_alert role env alert; raise_alerts role env alerts

-- The result has the numbers `considered` and `raised`.
unfoldable pub run_deadline_alerts : Role → Env → M (ℕ × ℕ)
run_deadline_alerts role env db =
    (do
      (tenders, sent) ← collect role env (all_org_ids db)
      due ← lift (due_deadline_alerts env.now sent tenders)
      raise_alerts role env due
      set_org_context role none
      return (length tenders, length due))
      db
