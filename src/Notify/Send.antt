-- ===== src/Notify/Send.antt =====
-- The delivery (notify.py: `recipients_for_org`, `run_notify_send`). A transport answers whether it
-- accepts a message, and may answer each attempt differently: it is given the attempts before.
use bid_pilot.Prelude.{
  ℕ, ◌+◌, ◌&&◌, ◌||◌, not, Bool, true, false, String, Option, none, some, List, [], ◌∷◌, ◌++◌, map,
  select, take, leb, str_eq, update_where, is_some, if◌then◌else◌,
}
use bid_pilot.Prelude.Outcome.{Result, ok, err}
use bid_pilot.Store.{Env, Db, M, return, lift, ◌>>=◌, ◌>>◌}
use bid_pilot.Store.Rows.{NotificationRow, MemberRow}
use bid_pilot.Tenancy.{Role, set_org_context, all_org_ids, is_visible}
use bid_pilot.Notify.Render.{Recipient, Message, Mailing, render_notification}

-- The attempts, each with whether the transport accepted it.
abbrev pub Attempts : Type 0
Attempts = List (Message × Bool)

abbrev pub Transport : Type 0
Transport = Attempts → Message → Bool

-- `row["locale"] or "fr"`
abbrev pub locale_or_fr : String → String
locale_or_fr locale = if str_eq locale "" then "fr" else locale

abbrev pub recipient : MemberRow → Recipient
recipient m = record {
  user_id = m.user_id;
  email = m.email;
  name = m.name;
  locale = locale_or_fr m.locale;
}

abbrev pub is_notifiable : Option String → String → MemberRow → Bool
is_notifiable ctx org_id m =
    is_visible ctx m.org_id && str_eq m.org_id org_id && not (str_eq m.role "viewer")

-- The query, under a context.
abbrev pub recipients : Option String → String → List MemberRow → List Recipient
recipients ctx org_id members = map recipient (select (is_notifiable ctx org_id) members)

unfoldable pub recipients_for_org : Role → String → M (List Recipient)
recipients_for_org role org_id = do
  set_org_context role (some org_id)
  λ db. return (recipients db.org_context org_id db.members) db

-- `ORDER BY created_at`
unfoldable pub insert_oldest : NotificationRow → List NotificationRow → List NotificationRow
insert_oldest n [] = n ∷ []
insert_oldest n (x ∷ xs) =
    let rest = insert_oldest n xs in if leb n.created_at x.created_at then n ∷ x ∷ xs else x ∷ rest

unfoldable pub oldest_first : List NotificationRow → List NotificationRow
unfolding insert_oldest
oldest_first [] = []
oldest_first (n ∷ ns) = insert_oldest n (oldest_first ns)

abbrev pub is_pending : Option String → NotificationRow → Bool
is_pending ctx n = is_visible ctx n.org_id && not (is_some n.sent_at)

abbrev pub pending : ℕ → Option String → List NotificationRow → List NotificationRow
pending limit ctx ns = take limit (oldest_first (select (is_pending ctx) ns))

-- The outcome for the first recipient joined to that for the others.
abbrev pub accepted_by : Bool → Result (Bool × Attempts) → Result (Bool × Attempts)
accepted_by accepted (ok (later, attempts)) = ok (accepted || later, attempts)
accepted_by accepted (err e) = err e

abbrev pub with_message :
    Result Message → (Message → Result (Bool × Attempts)) → Result (Bool × Attempts)
with_message (ok message) send = send message
with_message (err e) send = err e

-- One message to each recipient; the result tells whether any was accepted. A message that cannot be
-- built raises, as it is built outside of the `try`.
unfoldable pub deliver :
    Transport → Mailing → NotificationRow → List Recipient → Attempts → Result (Bool × Attempts)
unfolding render_notification
deliver transport mailing n [] attempts = ok (false, attempts)
deliver transport mailing n (r ∷ rs) attempts =
    with_message (render_notification mailing n r) (λ message.
      accepted_by (transport attempts message)
        (deliver transport mailing n rs (attempts ++ (message, transport attempts message) ∷ [])))

abbrev pub marked : Env → NotificationRow → NotificationRow
marked env n = record n { sent_at = some env.now }

-- `UPDATE notifications SET sent_at = now() WHERE id = …`, on the rows that the context shows
abbrev pub mark_sent : Env → String → M (Unit {0})
mark_sent env id db = return tt (record db {
  notifications =
      update_where (λ n. is_visible db.org_context n.org_id && str_eq n.id id) (marked env)
        db.notifications;
})

-- The counters `sent` and `failed`, with the attempts.
pub record Sweep : Type 0 where
  pub sent : ℕ
  pub failed : ℕ
  pub attempts : Attempts

unfoldable pub settle_row : Role → Env → String → String → Sweep → Bool × Attempts → M Sweep
settle_row role env org_id id s (false, attempts) =
    return (record s { failed = s.failed + 1; attempts = attempts })
settle_row role env org_id id s (true, attempts) = do
  set_org_context role (some org_id)
  mark_sent env id
  return (record s { sent = s.sent + 1; attempts = attempts })

unfoldable pub send_rows :
    Role
    → Env
    → Transport
    → Mailing
    → String
    → List Recipient
    → Sweep
    → List NotificationRow
    → M Sweep
unfolding deliver settle_row
send_rows role env transport mailing org_id people s [] = return s
send_rows role env transport mailing org_id people s (n ∷ ns) = do
  d ← lift (deliver transport mailing n people s.attempts)
  t ← settle_row role env org_id n.id s d
  send_rows role env transport mailing org_id people t ns

-- An organisation without recipients keeps its notifications.
unfoldable pub send_to :
    Role
    → Env
    → Transport
    → Mailing
    → String
    → Sweep
    → List NotificationRow
    → List Recipient
    → M Sweep
unfolding send_rows
send_to role env transport mailing org_id s rows [] = return s
send_to role env transport mailing org_id s rows (p ∷ people) =
    send_rows role env transport mailing org_id (p ∷ people) s rows

unfoldable pub send_pending :
    Role → Env → Transport → Mailing → String → Sweep → List NotificationRow → M Sweep
unfolding send_to recipients_for_org
send_pending role env transport mailing org_id s [] = return s
send_pending role env transport mailing org_id s (n ∷ ns) = do
  people ← recipients_for_org role org_id
  send_to role env transport mailing org_id s (n ∷ ns) people

unfoldable pub send_for_org : Role → Env → Transport → Mailing → ℕ → String → Sweep → M Sweep
unfolding send_pending oldest_first
send_for_org role env transport mailing limit org_id s = do
  set_org_context role (some org_id)
  λ db.
      send_pending role env transport mailing org_id s
        (pending limit db.org_context db.notifications) db

unfoldable pub send_orgs : Role → Env → Transport → Mailing → ℕ → Sweep → List String → M Sweep
unfolding send_for_org
send_orgs role env transport mailing limit s [] = return s
send_orgs role env transport mailing limit s (org_id ∷ orgs) = do
  t ← send_for_org role env transport mailing limit org_id s
  send_orgs role env transport mailing limit t orgs

-- The argument `org_ids`, or all organisations.
abbrev pub chosen : Option (List String) → Db → List String
chosen (some orgs) db = orgs
chosen none db = all_org_ids db

unfoldable pub run_notify_send :
    Role → Env → Transport → Mailing → ℕ → Option (List String) → M Sweep
unfolding send_orgs
run_notify_send role env transport mailing limit org_ids = do
  s ← λ db.
      send_orgs role env transport mailing limit (record { sent = 0; failed = 0; attempts = [] })
        (chosen org_ids db) db
  set_org_context role none
  return s
