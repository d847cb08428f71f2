-- ===== src/Alerts/Escalated.antt =====
-- An alert is escalated once (alerts.py: `_escalate_for_org`).
use Prim.Native.String.{◌++◌ as cat}
use bid_pilot.Prelude.{
  ℕ, ◌+◌, ◌≡◌, ◌∙◌, refl, ap, sym, Bool, true, false, arith, String, Option, none, some, List, [],
  ◌∷◌, ◌++◌, append_assoc, append-nil, any, any-append, select, length, eq_refl, or_else,
  Bool-cases, inl, inr, All, All-imp, is_some,
}
use bid_pilot.Prelude.Outcome.{ok}
use bid_pilot.Store.{Env, Db}
use bid_pilot.Store.Rows.{JobRow, NotificationRow}
use bid_pilot.Queue.Defs.{
  enqueue, enqueue_with, insert_job, is_job_kind, offered, default_max_attempts,
}
use bid_pilot.Queue.Keys.{insert_job_cases}
use bid_pilot.Scheduler.Idempotent.{insert_job-total}
use bid_pilot.Tenancy.{is_visible}
use bid_pilot.Alerts.Escalate.{
  escalates, is_unacknowledged, escalation, escalation_payload, escalate_rows, escalate_for_org,
  same_text,
}

insert_job-context :
    (row : JobRow) (db : Db) {r : Option String} {db' : Db}
    → insert_job row db ≡ ok (r, db')
    → (db'.notifications ≡ db.notifications) × (db'.org_context ≡ db.org_context)
insert_job-context row db h = elim (insert_job_cases row db h) [
  | inl (_, _, same) ↦ (ap (λ (d : Db). d.notifications) same, ap (λ (d : Db). d.org_context) same)
  | inr (_, _, longer) ↦
      (ap (λ (d : Db). d.notifications) longer, ap (λ (d : Db). d.org_context) longer)
]

send_known : is_job_kind "notify.send" ≡ true
unfolding is_job_kind
send_known = refl

-- A tenant that sees the row also sees, among these notifications, one that escalates its tender.
abbrev pub Covered : List NotificationRow → NotificationRow → Type 0
Covered added row =
    (org : Option String)
    → is_visible org row.org_id ≡ true
    → is_some row.tender_id ≡ true
    → any (escalates org row.tender_id) added ≡ true

-- The notification that escalates an alert, but for its id and the time of its creation.
abbrev pub Repeats : NotificationRow → NotificationRow → Type 0
Repeats row n =
    (n.kind ≡ "deadline.escalated")
    × (n.org_id ≡ row.org_id)
    × (n.tender_id ≡ row.tender_id)
    × (n.title ≡ row.title)
    × (n.sent_at ≡ none)

-- The notifications escalate the alerts, one by one.
abbrev pub OneEach : List NotificationRow → List NotificationRow → Type 0
OneEach [] [] = Unit
OneEach (row ∷ rows) (n ∷ ns) = Repeats row n × OneEach rows ns
OneEach _ _ = ⊥

-- The loop over stale rows adds one notification for each.
record Escalated (rows : List NotificationRow) (db db' : Db) : Type 0 where
  added : List NotificationRow
  notified : db'.notifications ≡ db.notifications ++ added
  counted : OneEach rows added
  covered : All (Covered added) rows
  same_context : db'.org_context ≡ db.org_context

same_text_refl : (t : Option String) → is_some t ≡ true → same_text t t ≡ true
same_text_refl none h = cc
same_text_refl (some t) h = eq_refl t

escalation-Covered :
    (env : Env) (row : NotificationRow) (n : ℕ) (rest : List NotificationRow)
    → Covered (escalation env row n ∷ rest) row
unfolding escalates
escalation-Covered env row n rest org seen known =
    ground (arith, same_text_refl row.tender_id known, eq_refl "deadline.escalated")

Covered-cons :
    (n : NotificationRow) (added : List NotificationRow) (row : NotificationRow)
    → Covered added row
    → Covered (n ∷ added) row
Covered-cons n added row h org seen known = ground (arith, h org seen known)

escalate_rows-Escalated :
    (env : Env) (rows : List NotificationRow) (db : Db)
    → (db' : Db) × (escalate_rows env rows db ≡ ok (tt, db')) × Escalated rows db db'
unfolding escalate_rows enqueue enqueue_with
escalate_rows-Escalated env [] db = (
  db,
  refl,
  record {
    added = [];
    notified = sym (append-nil db.notifications);
    counted = tt;
    covered = tt;
    same_context = refl;
  },
)
escalate_rows-Escalated env (row ∷ rows) db =
    let n = escalation env row db.drawn in
    let ready = record db {
      drawn = db.drawn + 1 + 1;
      notifications = db.notifications ++ n ∷ [];
    } in
    let job =
      offered env "notify.send" (escalation_payload row)
        (cat (or_else row.tender_id "None") ":escalated") "1" none default_max_attempts
        (db.drawn + 1) in
    let (r, db₁, inserted) = insert_job-total job ready in
    let (kept, same) = insert_job-context job ready inserted in
    let (db₂, e, g) = escalate_rows-Escalated env rows db₁ in
    (
      db₂,
      rw send_known (rw inserted e),
      record {
        added = n ∷ g.added;
        notified =
            g.notified
            ∙ ap (λ ns. ns ++ g.added) kept
            ∙ append_assoc db.notifications (n ∷ []) g.added;
        counted = ((refl, refl, refl, refl, refl), g.counted);
        covered = (
          escalation-Covered env row db.drawn g.added,
          All-imp (Covered g.added) (Covered (n ∷ g.added)) (λ r. Covered-cons n g.added r) rows
              g.covered,
        );
        same_context = g.same_context ∙ same;
      },
    )

Covered-later :
    (env env' : Env) (org : Option String) (all added : List NotificationRow)
    (row : NotificationRow)
    → is_unacknowledged env org all row ≡ true
    → is_some row.tender_id ≡ true
    → Covered added row
    → is_unacknowledged env' org (all ++ added) row ≡ false
unfolding is_unacknowledged
Covered-later env env' org all added row stale known c =
    let seen : is_visible org row.org_id ≡ true = ground arith in
    ground (arith, any-append (escalates org row.tender_id) all added, c org seen known)

Covered-of_select :
    (p : NotificationRow → Bool) (added rows : List NotificationRow)
    → All (Covered added) (select p rows)
    → All (λ row. p row ≡ true → Covered added row) rows
Covered-of_select p added [] h = tt
Covered-of_select p added (row ∷ rows) h = elim (Bool-cases (p row)) [
  | inl e ↦ let kept = rw e at h in ((λ _. kept.0), Covered-of_select p added rows kept.1)
  | inr e ↦ ((λ e'. cc), Covered-of_select p added rows (rw e at h))
]

-- The escalation for a tenant returns the number of the alerts that the tenant has unacknowledged. It
-- has added one notification for each of them, in their order, with the alert's tender and title, and no
-- other. In the state that it leaves none of those that name a tender is found again, at any later time.
pub escalate_for_org-once :
    (env env' : Env) (db : Db)
    → let stale = select (is_unacknowledged env db.org_context db.notifications) db.notifications in
      (db' : Db) × (added : List NotificationRow) × (escalate_for_org env db
        ≡ ok (length stale, db'))
      × (db'.notifications ≡ db.notifications ++ added)
      × OneEach stale added
      × All
          (λ row.
            is_unacknowledged env db.org_context db.notifications row ≡ true
            → is_some row.tender_id ≡ true
            → is_unacknowledged env' db'.org_context db'.notifications row ≡ false)
          db.notifications
unfolding escalate_for_org
escalate_for_org-once env env' db =
    let p = is_unacknowledged env db.org_context db.notifications in
    let (db', e, g) = escalate_rows-Escalated env (select p db.notifications) db in
    (
      db',
      g.added,
      rw e refl,
      g.notified,
      g.counted,
      All-imp _ _
          (λ row c stale known.
            rw (g.notified, g.same_context)
              (Covered-later env env' db.org_context db.notifications g.added row stale known
                (c stale)))
          db.notifications (Covered-of_select p g.added db.notifications g.covered),
    )
