-- ===== src/Examples/NotifyRuns.antt =====
-- Runs of the delivery.
use bid_pilot.Prelude.{
  String, Bool, all, not, ◌&&◌, ◌==◌, ◌≡◌, refl, true, false, none, some, [], ◌∷◌, All, arith,
}
use bid_pilot.Prelude.Outcome.{ok, err, value_error}
use bid_pilot.Store.{Db}
use bid_pilot.Store.Rows.{NotificationRow, MemberRow, expired}
use bid_pilot.Canonical.{or_text}
use bid_pilot.Scheduler.Text.{left, str, codes}
use bid_pilot.Matching.Filters.{starts_with}
use bid_pilot.Notify.Render.{
  Mailing, leaf, tree, nothing, entry, render_notification, message_for, subject_for, subject_of,
  greeting, content, link_of, joined, known_locale, is_deadline, deadline_line, translate, child,
}
use bid_pilot.Notify.Send.{Transport, Sweep, recipient, run_notify_send}
use bid_pilot.Notify.Headers.{TakesAll}
use bid_pilot.Notify.Delivered.{Served, run_notify_send-Served}
use bid_pilot.Notify.Refused.{run_notify_send-refused}
use bid_pilot.Notify.Digest.{
  LocalHour, Digests, is_due, is_recent_digest, has_nothing, digest_matches, scored_titles,
  best_first, needs_attention, is_new,
}
use bid_pilot.Examples.Samples.{at, empty, org_row}

program : Unit {0}
unfolding render_notification message_for subject_for subject_of greeting content link_of joined
    known_locale is_deadline deadline_line translate child or_text left starts_with str is_due
    is_recent_digest has_nothing digest_matches scored_titles best_first needs_attention is_new
program = tt

-- No line feed and no carriage return
abbrev is_one_line : String → Bool
is_one_line s = all (λ c. not (c == 10) && not (c == 13)) (codes s)

abbrev mailing : Mailing
mailing = record {
  catalogue =
      λ locale. tree (entry "notice" (tree (entry "deadline" (leaf "Deadline") nothing)) nothing);
  app_url = "http://localhost:3000";
  email_from = "BidPilot";
  iso = str;
  takes_header = is_one_line;
}

abbrev alert_row : NotificationRow
alert_row = record {
  id = "n1";
  org_id = "o1";
  kind = "deadline.j3";
  tender_id = some "t1";
  title = "Parc";
  deadline_at = some 5;
  offset_working_days = some 3;
  created_at = 1;
  sent_at = none;
  ack_at = none;
}

abbrev member : MemberRow
member = record {
  org_id = "o1";
  role = "owner";
  user_id = "u1";
  email = "a@b.c";
  name = some "Ada";
  locale = "en";
}

abbrev alerted : Db
alerted = record empty {
  orgs = org_row "o1" ∷ [];
  members = member ∷ [];
  notifications = alert_row ∷ [];
}

rendered :
    render_notification mailing alert_row (recipient member)
    ≡ ok (record {
      subject = "3 working days left: Parc";
      from = "BidPilot";
      to = "a@b.c";
      body = "Ada,\n\nParc\nDeadline: 5\n\nhttp://localhost:3000/tenders/t1";
    })
unfolding program
rendered = refl

-- A title with a line break makes a message that cannot be built.
refused_header :
    render_notification mailing (record alert_row { title = "Parc\nLot 1" }) (recipient member)
    ≡ err (value_error "Header values may not contain linefeed or carriage return characters")
unfolding program
refused_header = refl

readable : TakesAll mailing alerted.members alerted.notifications
unfolding program
readable = ((refl, tt), tt)

abbrev accepting : Transport
accepting attempts m = true

abbrev refusing : Transport
refusing attempts m = false

run_notify_send-Served_example :
    (t : Sweep) × (db' : Db) × (run_notify_send
        (some false)
        (at 5)
        accepting
        mailing
        100
        none
        alerted
      ≡ ok (t, db'))
    × All (λ org. Served org db') ("o1" ∷ [])
run_notify_send-Served_example =
    run_notify_send-Served (at 5) mailing accepting (λ attempts m. refl) 100 alerted (omega arith)
      readable

run_notify_send-refused_example :
    (t : Sweep) × (run_notify_send (some false) (at 5) refusing mailing 100 none alerted
      ≡ ok (t, record alerted { org_context = none }))
    × (t.sent ≡ 0)
run_notify_send-refused_example =
    run_notify_send-refused (at 5) mailing refusing (λ attempts m. refl) 100 none alerted readable

abbrev expired_evidence : Db
expired_evidence = record alerted {
  evidences = record { id = "e1"; org_id = "o1"; expires_at = some 3; status = expired } ∷ [];
}

abbrev at_seven : LocalHour
at_seven tz t = 7

abbrev no_digests : Digests
no_digests = record { digests = 0; skipped = 0; attempts = [] }
