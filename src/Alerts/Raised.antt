-- ===== src/Alerts/Raised.antt =====
-- What a sweep for deadline alerts leaves behind (alerts.py: `run_deadline_alerts`).
use Prim.Native.String.{◌++◌ as cat}
use bid_pilot.Prelude.{
  ◌+◌, ◌≡◌, refl, ap, ◌∙◌, sym, true, false, String, Option, none, some, List, [], ◌∷◌, ◌++◌,
  append_assoc, append-nil, map, length, select, elem, All, All-append, All-imp, inl, inr, ◌⊎◌,
  map-append, elem-append, eq_refl, IsUnique, arith,
}
use bid_pilot.Prelude.Outcome.{ok}
use bid_pilot.Store.{Env, Db}
use bid_pilot.Store.Rows.{JobRow, TenderRow, NotificationRow}
use bid_pilot.Queue.Defs.{
  enqueue, enqueue_with, insert_job, idempotency_key, is_job_kind, default_max_attempts, offered,
}
use bid_pilot.Queue.Keys.{key_of, insert_job_cases, insert_job-stored, insert_job-IsUnique}
use bid_pilot.Scheduler.Idempotent.{insert_job-total, insert_job-Grown}
use bid_pilot.Tenancy.{all_org_ids, set_org_context, assert_policy_bound}
use bid_pilot.Alerts.Due.{DueAlert, Sent, notification_kind, due_deadline_alerts}
use bid_pilot.Alerts.Run.{
  collect, read_tenant, is_pursued, sent_pairs, raise_alert, raise_alerts, run_deadline_alerts,
  notification, send_payload,
}

-- A loop over tenants changes nothing but the context.
pub collect-total :
    (env : Env) (orgs : List String) (db : Db)
    → (tenders : List TenderRow) × (sent : Sent) × (ctx : Option String) × (collect
          (some false)
          env
          orgs
          db
        ≡ ok ((tenders, sent), record db { org_context = ctx }))
unfolding collect set_org_context assert_policy_bound read_tenant
collect-total env [] db = ([], [], db.org_context, refl)
collect-total env (org ∷ orgs) db =
    let (tenders, sent, ctx, e) = collect-total env orgs (record db { org_context = some org }) in
    (
      select (is_pursued env (some org)) db.tenders ++ tenders,
      sent_pairs (some org) db.notifications ++ sent,
      ctx,
      rw e refl,
    )

-- The notification of an alert, but for its id and the time of its creation.
abbrev pub Announces : DueAlert → NotificationRow → Type 0
Announces a n =
    (n.org_id ≡ a.org_id)
    × (n.kind ≡ notification_kind a)
    × (n.tender_id ≡ some a.tender_id)
    × (n.offset_working_days ≡ some a.offset_days)
    × (n.sent_at ≡ none)

abbrev pub Each : List DueAlert → List NotificationRow → Type 0
Each [] [] = Unit {0}
Each (a ∷ alerts) (n ∷ ns) = Announces a n × Each alerts ns
Each _ _ = ⊥

-- The send job's key.
abbrev pub send_key : DueAlert → String
send_key a = idempotency_key "notify.send" (cat a.tender_id (cat ":" (notification_kind a))) "1"

abbrev pub Queued : Db → DueAlert → Type 0
Queued db a = elem (send_key a) (map key_of db.jobs) ≡ true

-- A job for one of the alerts.
abbrev pub ForOne : List DueAlert → JobRow → Type 0
ForOne alerts j = elem (key_of j) (map send_key alerts) ≡ true

-- One notification was added per alert, in the order of the alerts. A job with the key of each alert is
-- stored, every job that was added has the key of an alert, and the keys stay distinct. The tenders are
-- untouched.
pub record Raised (alerts : List DueAlert) (db db' : Db) : Type 0 where
  pub added : List NotificationRow
  pub notified : db'.notifications ≡ db.notifications ++ added
  pub each : Each alerts added
  pub queued : All (Queued db') alerts
  pub new_jobs : List JobRow
  pub stored : db'.jobs ≡ db.jobs ++ new_jobs
  pub for_alerts : All (ForOne alerts) new_jobs
  pub unique : IsUnique (map key_of db.jobs) → IsUnique (map key_of db'.jobs)
  pub kept : (k : String) → elem k (map key_of db.jobs) ≡ true → elem k (map key_of db'.jobs) ≡ true
  pub same_tenders : db'.tenders ≡ db.tenders

Each-append :
    (xs ys : List DueAlert) (ns ms : List NotificationRow)
    → Each xs ns
    → Each ys ms
    → Each (xs ++ ys) (ns ++ ms)
Each-append [] ys [] ms h k = k
Each-append [] ys (n ∷ ns) ms h k = absurd h
Each-append (x ∷ xs) ys [] ms h k = absurd h
Each-append (x ∷ xs) ys (n ∷ ns) ms h k = (h.0, Each-append xs ys ns ms h.1 k)

ForOne-append :
    (xs ys : List DueAlert) (j : JobRow) → ForOne xs j ⊎ ForOne ys j → ForOne (xs ++ ys) j
ForOne-append xs ys j h =
    ap (elem (key_of j)) (map-append send_key xs ys)
    ∙ ground (arith, elem-append (key_of j) (map send_key xs) (map send_key ys))

Raised-trans :
    (xs ys : List DueAlert) {a b c : Db} → Raised xs a b → Raised ys b c → Raised (xs ++ ys) a c
Raised-trans xs ys {a} {b} {c} g h = record {
  added = g.added ++ h.added;
  notified =
      h.notified
      ∙ ap (λ ns. ns ++ h.added) g.notified
      ∙ append_assoc a.notifications g.added h.added;
  each = Each-append xs ys g.added h.added g.each h.each;
  queued =
      All-append (Queued c) xs ys
        (All-imp (Queued b) (Queued c) (λ x q. h.kept (send_key x) q) xs g.queued) h.queued;
  new_jobs = g.new_jobs ++ h.new_jobs;
  stored =
      h.stored ∙ ap (λ js. js ++ h.new_jobs) g.stored ∙ append_assoc a.jobs g.new_jobs h.new_jobs;
  for_alerts =
      All-append (ForOne (xs ++ ys)) g.new_jobs h.new_jobs
        (All-imp (ForOne xs) (ForOne (xs ++ ys)) (λ j e. ForOne-append xs ys j (inl e)) g.new_jobs
          g.for_alerts)
        (All-imp (ForOne ys) (ForOne (xs ++ ys)) (λ j e. ForOne-append xs ys j (inr e)) h.new_jobs
          h.for_alerts);
  unique = λ u. h.unique (g.unique u);
  kept = λ k e. h.kept k (g.kept k e);
  same_tenders = h.same_tenders ∙ g.same_tenders;
}

-- An insertion of a job leaves the other tables alone.
insert_job-others :
    (row : JobRow) (db : Db) {r : Option String} {db' : Db}
    → insert_job row db ≡ ok (r, db')
    → (db'.notifications ≡ db.notifications) × (db'.tenders ≡ db.tenders)
insert_job-others row db h = elim (insert_job_cases row db h) [
  | inl (_, _, same) ↦ (ap (λ (d : Db). d.notifications) same, ap (λ (d : Db). d.tenders) same)
  | inr (_, _, longer) ↦
      (ap (λ (d : Db). d.notifications) longer, ap (λ (d : Db). d.tenders) longer)
]

-- The jobs that an insertion adds have the key of the row.
insert_job-new :
    (row : JobRow) (db : Db) {r : Option String} {db' : Db}
    → insert_job row db ≡ ok (r, db')
    → (new : List JobRow) × (db'.jobs ≡ db.jobs ++ new)
      × All (λ j. key_of j ≡ row.idempotency_key) new
insert_job-new row db h = elim (insert_job_cases row db h) [
  | inl (_, _, same) ↦ ([], ap (λ (d : Db). d.jobs) same ∙ sym (append-nil db.jobs), tt)
  | inr (_, _, longer) ↦ (row ∷ [], ap (λ (d : Db). d.jobs) longer, (refl, tt))
]

send_known : is_job_kind "notify.send" ≡ true
unfolding is_job_kind
send_known = refl

raise_alert-Raised :
    (env : Env) (a : DueAlert) (db : Db)
    → (db' : Db) × (raise_alert (some false) env a db ≡ ok (tt, db')) × Raised (a ∷ []) db db'
unfolding raise_alert set_org_context assert_policy_bound enqueue enqueue_with
raise_alert-Raised env a db =
    let entity = cat a.tender_id (cat ":" (notification_kind a)) in
    let noted = record db {
      org_context = some a.org_id;
      drawn = db.drawn + 1;
      notifications = db.notifications ++ notification env a db.drawn ∷ [];
    } in
    let ready = record noted { drawn = noted.drawn + 1 } in
    let row =
      offered env "notify.send" (send_payload a) entity "1" none default_max_attempts noted.drawn in
    let (r, db', inserted) = insert_job-total row ready in
    let g = insert_job-Grown row ready inserted in
    let (notified, same) = insert_job-others row ready inserted in
    let (new, longer, all) = insert_job-new row ready inserted in
    (
      db',
      rw send_known (rw inserted refl),
      record {
        added = notification env a db.drawn ∷ [];
        notified = notified;
        each = ((refl, refl, refl, refl, refl), tt);
        queued = (insert_job-stored row ready inserted, tt);
        new_jobs = new;
        stored = longer;
        for_alerts =
            All-imp (λ j. key_of j ≡ row.idempotency_key) (ForOne (a ∷ []))
              (λ j e. rw e (ground (arith, eq_refl row.idempotency_key))) new all;
        unique = λ u. insert_job-IsUnique row ready u inserted;
        kept = g.kept;
        same_tenders = same;
      },
    )

raise_alerts-Raised :
    (env : Env) (alerts : List DueAlert) (db : Db)
    → (db' : Db) × (raise_alerts (some false) env alerts db ≡ ok (tt, db')) × Raised alerts db db'
unfolding raise_alerts
raise_alerts-Raised env [] db = (
  db,
  refl,
  record {
    added = [];
    notified = sym (append-nil db.notifications);
    each = tt;
    queued = tt;
    new_jobs = [];
    stored = sym (append-nil db.jobs);
    for_alerts = tt;
    unique = λ u. u;
    kept = λ k e. e;
    same_tenders = refl;
  },
)
raise_alerts-Raised env (a ∷ alerts) db =
    let (db₁, e, g) = raise_alert-Raised env a db in
    let (db₂, f, h) = raise_alerts-Raised env alerts db₁ in
    (db₂, rw e f, Raised-trans (a ∷ []) alerts g h)

-- Under a role that the row policies bind, a sweep that has collected the tenders and computed the due
-- alerts returns, and it has added exactly one notification for each of them, in their order. A job with
-- the key of each is stored; every job that was added has the key of one of them, and keys that were
-- distinct stay so, so that an alert whose key was not stored gets one job and no other job is added.
pub run_deadline_alerts-Raised :
    (env : Env) (db : Db) (tenders : List TenderRow) (sent : Sent) (ctx : Option String)
    (due : List DueAlert)
    → collect (some false) env (all_org_ids db) db
      ≡ ok ((tenders, sent), record db { org_context = ctx })
    → due_deadline_alerts env.now sent tenders ≡ ok due
    → (db' : Db) × (run_deadline_alerts (some false) env db
        ≡ ok ((length tenders, length due), db'))
      × Raised due db db'
      × (db'.org_context ≡ none)
unfolding run_deadline_alerts set_org_context assert_policy_bound
run_deadline_alerts-Raised env db tenders sent ctx due collected computed =
    let (db₁, e, g) = raise_alerts-Raised env due (record db { org_context = ctx }) in
    (
      record db₁ { org_context = none },
      rw collected (rw computed (rw e refl)),
      record {
        added = g.added;
        notified = g.notified;
        each = g.each;
        queued = g.queued;
        new_jobs = g.new_jobs;
        stored = g.stored;
        for_alerts = g.for_alerts;
        unique = g.unique;
        kept = g.kept;
        same_tenders = g.same_tenders;
      },
      refl,
    )
