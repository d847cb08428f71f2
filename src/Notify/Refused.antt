-- ===== src/Notify/Refused.antt =====
-- Delivery by a transport that refuses every message (notify.py: `run_notify_send`).
use bid_pilot.Prelude.{
  ℕ, ◌+◌, ◌≡◌, refl, ◌∙◌, false, String, Option, none, some, List, [], ◌∷◌, ◌++◌, All,
}
use bid_pilot.Prelude.Outcome.{ok}
use bid_pilot.Store.{Env, Db}
use bid_pilot.Store.Rows.{NotificationRow}
use bid_pilot.Tenancy.{set_org_context, assert_policy_bound}
use bid_pilot.Notify.Render.{Recipient, Message, Mailing, render_notification, message_for}
use bid_pilot.Notify.Headers.{TakesAll, Builds, pending-Builds}
use bid_pilot.Notify.Send.{
  Attempts, Transport, recipients, recipients_for_org, pending, deliver, Sweep, settle_row,
  send_rows, send_to, send_pending, send_for_org, send_orgs, chosen, run_notify_send,
}

module _ (env : Env) (mailing : Mailing) (transport : Transport)
    (refuses : (attempts : Attempts) (m : Message) → transport attempts m ≡ false) where
  deliver-refused :
      (n : NotificationRow) (ps : List Recipient) (attempts : Attempts)
      → Builds mailing ps n
      → (later : Attempts) × (deliver transport mailing n ps attempts ≡ ok (false, later))
  unfolding deliver render_notification
  deliver-refused n [] attempts h = (attempts, refl)
  deliver-refused n (p ∷ ps) attempts h =
      let m = message_for mailing n p in
      let (later, e) = deliver-refused n ps (attempts ++ (m, transport attempts m) ∷ []) h.1 in
      (later, rw h.0 (rw e (rw (refuses attempts m) refl)))

  send_rows-refused :
      (org : String) (ps : List Recipient) (s : Sweep) (ns : List NotificationRow) (db : Db)
      → All (Builds mailing ps) ns
      → (t : Sweep) × (send_rows (some false) env transport mailing org ps s ns db ≡ ok (t, db))
        × (t.sent ≡ s.sent)
  unfolding send_rows settle_row
  send_rows-refused org ps s [] db b = (s, refl, refl)
  send_rows-refused org ps s (n ∷ ns) db b =
      let (later, refused) = deliver-refused n ps s.attempts b.0 in
      let t : Sweep = record s { failed = s.failed + 1; attempts = later } in
      let (r, f, j) = send_rows-refused org ps t ns db b.1 in (r, rw refused f, j)

  send_to-refused :
      (org : String) (s : Sweep) (ns : List NotificationRow) (people : List Recipient) (db : Db)
      → All (Builds mailing people) ns
      → (t : Sweep) × (send_to (some false) env transport mailing org s ns people db ≡ ok (t, db))
        × (t.sent ≡ s.sent)
  unfolding send_to
  send_to-refused org s ns [] db b = (s, refl, refl)
  send_to-refused org s ns (p ∷ ps) db b = send_rows-refused org (p ∷ ps) s ns db b

  send_pending-refused :
      (org : String) (s : Sweep) (ns : List NotificationRow) (db : Db)
      → All (Builds mailing (recipients (some org) org db.members)) ns
      → (t : Sweep) × (ctx : Option String) × (send_pending
            (some false)
            env
            transport
            mailing
            org
            s
            ns
            db
          ≡ ok (t, record db { org_context = ctx }))
        × (t.sent ≡ s.sent)
  unfolding send_pending recipients_for_org set_org_context assert_policy_bound
  send_pending-refused org s [] db b = (s, db.org_context, refl, refl)
  send_pending-refused org s (n ∷ ns) db b =
      let ready : Db = record db { org_context = some org } in
      let (t, e, k) =
        send_to-refused org s (n ∷ ns) (recipients (some org) org db.members) ready b in
      (t, some org, e, k)

  send_orgs-refused :
      (limit : ℕ) (s : Sweep) (orgs : List String) (db : Db)
      → TakesAll mailing db.members db.notifications
      → (t : Sweep) × (ctx : Option String) × (send_orgs
            (some false)
            env
            transport
            mailing
            limit
            s
            orgs
            db
          ≡ ok (t, record db { org_context = ctx }))
        × (t.sent ≡ s.sent)
  unfolding send_orgs send_for_org set_org_context assert_policy_bound
  send_orgs-refused limit s [] db takes = (s, db.org_context, refl, refl)
  send_orgs-refused limit s (org ∷ orgs) db takes =
      let ready : Db = record db { org_context = some org } in
      let (t, c, e, k) =
        send_pending-refused org s (pending limit (some org) db.notifications) ready
          (pending-Builds mailing limit (some org) org db.members db.notifications takes) in
      let (r, d, f, j) = send_orgs-refused limit t orgs (record db { org_context = c }) takes in
      (r, d, rw e f, j ∙ k)

  -- With a transport that refuses every message, a mail library that takes the headers of the message of
  -- each notification to each member, and a role that the row policies bind, a sweep over
  -- any choice of organisations returns, counts nothing as sent and leaves every table as it was, so each
  -- notification is there for the next sweep.
  pub run_notify_send-refused :
      (limit : ℕ) (org_ids : Option (List String)) (db : Db)
      → TakesAll mailing db.members db.notifications
      → (t : Sweep) × (run_notify_send (some false) env transport mailing limit org_ids db
          ≡ ok (t, record db { org_context = none }))
        × (t.sent ≡ 0)
  unfolding run_notify_send set_org_context assert_policy_bound
  run_notify_send-refused limit org_ids db takes =
      let (t, c, e, k) =
        send_orgs-refused limit (record { sent = 0; failed = 0; attempts = [] }) (chosen org_ids db)
          db takes in
      (t, rw e refl, k)
