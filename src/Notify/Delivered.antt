-- ===== src/Notify/Delivered.antt =====
-- Delivery by a transport that accepts every message (notify.py: `run_notify_send`).
use bid_pilot.Prelude.{
  ℕ, ◌≤◌, ◌≡◌, refl, ap, sym, subst, Option, ◌++◌, ◌∙◌, ◌⊎◌, inl, inr, Bool, true, false, arith,
  String, none, some, List, [], ◌∷◌, map, length, All,
}
use bid_pilot.Prelude.Outcome.{ok}
use bid_pilot.Store.{Env, Db}
use bid_pilot.Store.Rows.{NotificationRow}
use bid_pilot.Tenancy.{set_org_context, assert_policy_bound}
use bid_pilot.Notify.Render.{Recipient, Message, Mailing, render_notification, message_for}
use bid_pilot.Notify.Headers.{TakesAll, Builds, pending-Builds, mark_all-TakesAll, deliver-total}
use bid_pilot.Notify.Send.{
  Attempts, Transport, recipients, recipients_for_org, pending, deliver, Sweep, settle_row,
  send_rows, send_to, send_pending, send_for_org, send_orgs, run_notify_send,
}
use bid_pilot.Notify.Marks.{
  has_unsent, mark_all, mark_all-sent, mark_all-length, Listed-sent, pending-Listed,
}

-- What a sweep keeps: the members, the number of notifications, and that an organisation has nothing
-- unsent.
pub record Kept (db db' : Db) : Type 0 where
  pub members : db'.members ≡ db.members
  pub number : length db'.notifications ≡ length db.notifications
  pub sent :
      (org : String)
      → has_unsent org db.notifications ≡ false
      → has_unsent org db'.notifications ≡ false
  pub takes :
      (mailing : Mailing)
      → TakesAll mailing db.members db.notifications
      → TakesAll mailing db.members db'.notifications

Kept-refl : (db : Db) → Kept db db
Kept-refl db = record { members = refl; number = refl; sent = λ o k. k; takes = λ m k. k }

-- The context is not among what is kept.
Kept-context :
    {db db' : Db} {ctx : Option String} → Kept (record db { org_context = ctx }) db' → Kept db db'
Kept-context k = record { members = k.members; number = k.number; sent = k.sent; takes = k.takes }

Kept-trans : {a b c : Db} → Kept a b → Kept b c → Kept a c
Kept-trans {a} {b} {c} g h = record {
  members = h.members ∙ g.members;
  number = h.number ∙ g.number;
  sent = λ org k. h.sent org (g.sent org k);
  takes = λ m k.
      subst (λ z. TakesAll m z c.notifications) g.members
        (h.takes m (subst (λ z. TakesAll m z b.notifications) (sym g.members) (g.takes m k)));
}

-- The organisation has nobody to tell, or nothing unsent.
abbrev pub Served : String → Db → Type 0
Served org db =
    (recipients (some org) org db.members ≡ []) ⊎ (has_unsent org db.notifications ≡ false)

Served-Kept : (org : String) {a b : Db} → Kept a b → Served org a → Served org b
Served-Kept org g (inl e) = inl (ap (recipients (some org) org) g.members ∙ e)
Served-Kept org g (inr e) = inr (g.sent org e)

module _ (env : Env) (mailing : Mailing) (transport : Transport)
    (accepts : (attempts : Attempts) (m : Message) → transport attempts m ≡ true) where
  deliver-accepted :
      (n : NotificationRow) (p : Recipient) (ps : List Recipient) (attempts : Attempts)
      → Builds mailing (p ∷ ps) n
      → (later : Attempts) × (deliver transport mailing n (p ∷ ps) attempts ≡ ok (true, later))
  unfolding deliver render_notification
  deliver-accepted n p ps attempts h =
      let m = message_for mailing n p in
      let (b, later, e) =
        deliver-total transport mailing n ps (attempts ++ (m, transport attempts m) ∷ []) h.1 in
      (later, rw h.0 (rw e (rw (accepts attempts m) refl)))

  -- A notification that was accepted is marked.
  settle-marked :
      (org : String) (id : String) (s : Sweep) (d : Bool × Attempts) (db : Db)
      → d.0 ≡ true
      → (t : Sweep) × (settle_row (some false) env org id s d db
          ≡ ok (
            t,
            record db {
              org_context = some org;
              notifications = mark_all env org (id ∷ []) db.notifications;
            },
          ))
  unfolding settle_row set_org_context assert_policy_bound
  settle-marked org id s (true, attempts) db h = (_, refl)
  settle-marked org id s (false, attempts) db h = cc

  send_rows-marked :
      (org : String) (p : Recipient) (ps : List Recipient) (s : Sweep) (ns : List NotificationRow)
      (db : Db)
      → db.org_context ≡ some org
      → All (Builds mailing (p ∷ ps)) ns
      → (t : Sweep) × (db' : Db) × (send_rows
            (some false)
            env
            transport
            mailing
            org
            (p ∷ ps)
            s
            ns
            db
          ≡ ok (t, db'))
        × (db'.notifications ≡ mark_all env org (map (λ n. n.id) ns) db.notifications)
        × (db'.members ≡ db.members)
  unfolding send_rows
  send_rows-marked org p ps s [] db c b = (s, db, refl, refl, refl)
  send_rows-marked org p ps s (n ∷ ns) db c b =
      let (later, delivered) = deliver-accepted n p ps s.attempts b.0 in
      let (t, e) = settle-marked org n.id s (true, later) db refl in
      let next : Db = record db {
        org_context = some org;
        notifications = mark_all env org (n.id ∷ []) db.notifications;
      } in
      let (r, db', f, marks, members) = send_rows-marked org p ps t ns next refl b.1 in
      (r, db', rw delivered (rw e f), marks, members)

  marked-Served :
      (org : String) (ids : List String) (db db' : Db)
      → db'.notifications ≡ mark_all env org ids db.notifications
      → db'.members ≡ db.members
      → has_unsent org (mark_all env org ids db.notifications) ≡ false
      → Served org db' × Kept db db'
  marked-Served org ids db db' e m h = (
    inr (ap (has_unsent org) e ∙ h),
    record {
      members = m;
      number = ap length e ∙ mark_all-length env org ids db.notifications;
      sent =
          λ other k. ap (has_unsent other) e ∙ mark_all-sent env org other ids db.notifications k;
      takes = λ x k.
          subst (TakesAll x db.members) (sym e)
            (mark_all-TakesAll env x org ids db.members db.notifications k);
    },
  )

  send_to-Served :
      (org : String) (s : Sweep) (ns : List NotificationRow) (people : List Recipient) (db : Db)
      → db.org_context ≡ some org
      → recipients (some org) org db.members ≡ people
      → has_unsent org (mark_all env org (map (λ n. n.id) ns) db.notifications) ≡ false
      → All (Builds mailing people) ns
      → (t : Sweep) × (db' : Db) × (send_to (some false) env transport mailing org s ns people db
          ≡ ok (t, db'))
        × Served org db'
        × Kept db db'
  unfolding send_to
  send_to-Served org s ns [] db c e h b = (s, db, refl, inl e, Kept-refl db)
  send_to-Served org s ns (p ∷ ps) db c e h b =
      let (t, db', f, marks, members) = send_rows-marked org p ps s ns db c b in
      let (served, kept) = marked-Served org (map (λ n. n.id) ns) db db' marks members h in
      (t, db', f, served, kept)

  send_pending-Served :
      (org : String) (s : Sweep) (ns : List NotificationRow) (db : Db)
      → db.org_context ≡ some org
      → has_unsent org (mark_all env org (map (λ n. n.id) ns) db.notifications) ≡ false
      → All (Builds mailing (recipients (some org) org db.members)) ns
      → (t : Sweep) × (db' : Db) × (send_pending (some false) env transport mailing org s ns db
          ≡ ok (t, db'))
        × Served org db'
        × Kept db db'
  unfolding send_pending recipients_for_org set_org_context assert_policy_bound
  send_pending-Served org s [] db c h b = (s, db, refl, inr h, Kept-refl db)
  send_pending-Served org s (n ∷ ns) db c h b =
      let ready : Db = record db { org_context = some org } in
      let (t, db', e, served, kept) =
        send_to-Served org s (n ∷ ns) (recipients (some org) org db.members) ready refl refl h b in
      (t, db', e, served, Kept-context kept)

  send_for_org-Served :
      (limit : ℕ) (org : String) (s : Sweep) (db : Db)
      → length db.notifications ≤ limit
      → TakesAll mailing db.members db.notifications
      → (t : Sweep) × (db' : Db) × (send_for_org (some false) env transport mailing limit org s db
          ≡ ok (t, db'))
        × Served org db'
        × Kept db db'
  unfolding send_for_org set_org_context assert_policy_bound
  send_for_org-Served limit org s db h takes =
      let ready : Db = record db { org_context = some org } in
      let ns = pending limit (some org) db.notifications in
      let (t, db', e, served, kept) =
        send_pending-Served org s ns ready refl
          (Listed-sent env org (map (λ n. n.id) ns) db.notifications
            (pending-Listed limit org db.notifications h))
          (pending-Builds mailing limit (some org) org db.members db.notifications takes) in
      (t, db', e, served, Kept-context kept)

  send_orgs-Served :
      (limit : ℕ) (s : Sweep) (orgs : List String) (db : Db)
      → length db.notifications ≤ limit
      → TakesAll mailing db.members db.notifications
      → (t : Sweep) × (db' : Db) × (send_orgs (some false) env transport mailing limit s orgs db
          ≡ ok (t, db'))
        × All (λ org. Served org db') orgs
        × Kept db db'
  unfolding send_orgs
  send_orgs-Served limit s [] db h takes = (s, db, refl, tt, Kept-refl db)
  send_orgs-Served limit s (org ∷ orgs) db h takes =
      let (t, db₁, e, served, kept) = send_for_org-Served limit org s db h takes in
      let (r, db₂, f, rest, kept') =
        send_orgs-Served limit t orgs db₁ (omega (arith, kept.number)) (
          subst (λ z. TakesAll mailing z db₁.notifications) (sym kept.members)
            (kept.takes mailing takes)) in
      (r, db₂, rw e f, (Served-Kept org kept' served, rest), Kept-trans kept kept')

  -- With a transport that accepts every message, a role that the row policies bind, no more
  -- notifications than the limit of the query, and a mail library that takes the headers of the message
  -- of each notification to each member, the sweep over all organisations returns, and afterwards
  -- no organisation that has somebody to tell has an unsent notification.
  pub run_notify_send-Served :
      (limit : ℕ) (db : Db)
      → length db.notifications ≤ limit
      → TakesAll mailing db.members db.notifications
      → (t : Sweep) × (db' : Db) × (run_notify_send (some false) env transport mailing limit none db
          ≡ ok (t, db'))
        × All (λ org. Served org db') (map (λ o. o.id) db.orgs)
  unfolding run_notify_send set_org_context assert_policy_bound
  run_notify_send-Served limit db h takes =
      let (t, db₁, e, served, kept) =
        send_orgs-Served limit (record { sent = 0; failed = 0; attempts = [] })
          (map (λ o. o.id) db.orgs) db h takes in
      (t, record db₁ { org_context = none }, rw e refl, served)
