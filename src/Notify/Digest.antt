-- ===== src/Notify/Digest.antt =====
-- The daily digest (notify.py: `run_daily_digest`). The hour in a time zone, which the database computes,
-- is an argument; the clock of the database and the argument `now` are the same instant.
use Prim.Native.String.{◌++◌ as cat}
use bid_pilot.Prelude.{
  ℕ, ◌+◌, ◌*◌, ◌==◌, ◌&&◌, not, Bool, true, false, String, Option, none, some, List, [], ◌∷◌, ◌++◌,
  map, any, find, select, take, length, ltb, leb, str_eq, if◌then◌else◌,
}
use bid_pilot.Scheduler.Text.{left, str}
use bid_pilot.Store.{Env, Db, M, return, ◌>>=◌, ◌>>◌, second}
use bid_pilot.Store.Rows.{
  NotificationRow, MatchRow, MatchState, new, NoticeRow, EvidenceRow, valid, OrgRow,
}
use bid_pilot.Queue.Defs.{new_id}
use bid_pilot.Tenancy.{Role, set_org_context, is_visible}
use bid_pilot.Pipeline.Upsert.{is_notice}
use bid_pilot.Notify.Render.{Recipient, Message, Mailing, translate, known_locale, joined}
use bid_pilot.Notify.Send.{Attempts, Transport, recipients_for_org, locale_or_fr, chosen}

-- DIGEST_HOUR_LOCAL
abbrev pub digest_hour_local : ℕ
digest_hour_local = 7

-- DIGEST_MAX_MATCHES
abbrev pub digest_max_matches : ℕ
digest_max_matches = 10

abbrev pub twenty_hours : ℕ
twenty_hours = 72000 * second

-- The hour of an instant in a time zone.
abbrev pub LocalHour : Type 0
LocalHour = String → ℕ → ℕ

abbrev pub or_paris : String → String
or_paris tz = if str_eq tz "" then "Europe/Paris" else tz

-- A digest that was recorded less than twenty hours ago.
unfoldable pub is_recent_digest : Env → Option String → NotificationRow → Bool
is_recent_digest env ctx n =
    is_visible ctx n.org_id
    && str_eq n.kind "digest.daily"
    && ltb env.now (n.created_at + twenty_hours)

unfoldable pub is_new : MatchState → Bool
is_new new = true
is_new _ = false

-- A row of the join is the score with the title of the notice.
unfoldable pub scored_titles : Option String → List NoticeRow → List MatchRow → List (ℕ × String)
unfolding is_new
scored_titles ctx notices [] = []
scored_titles ctx notices (m ∷ ms) =
    let rest = scored_titles ctx notices ms in
    if is_visible ctx m.org_id && is_new m.state
    then elim (find (is_notice m.notice_id) notices) [
      | none ↦ rest
      | some n ↦ (m.score, n.title) ∷ rest
    ]
    else rest

-- `ORDER BY score DESC`
unfoldable pub insert_best : ℕ × String → List (ℕ × String) → List (ℕ × String)
insert_best x [] = x ∷ []
insert_best x (y ∷ ys) = let rest = insert_best x ys in if leb y.0 x.0 then x ∷ y ∷ ys else y ∷ rest

unfoldable pub best_first : List (ℕ × String) → List (ℕ × String)
unfolding insert_best
best_first [] = []
best_first (x ∷ xs) = insert_best x (best_first xs)

unfoldable pub digest_matches : Db → List (ℕ × String)
unfolding scored_titles best_first
digest_matches db =
    take digest_max_matches (best_first (scored_titles db.org_context db.notices db.matches))

unfoldable pub needs_attention : Option String → EvidenceRow → Bool
needs_attention ctx e = is_visible ctx e.org_id && elim e.status [ valid ↦ false | _ ↦ true ]

abbrev pub expiring : Db → ℕ
expiring db = length (select (needs_attention db.org_context) db.evidences)

-- `not matches and not expiring`
unfoldable pub has_nothing : Db → Bool
unfolding digest_matches needs_attention
has_nothing db = length (digest_matches db) == 0 && expiring db == 0

-- Whether none of the three reasons to skip an organisation holds.
unfoldable pub is_due : Env → LocalHour → OrgRow → Db → Bool
unfolding is_recent_digest has_nothing
is_due env local_hour org db =
    local_hour (or_paris org.tz) env.now == digest_hour_local
    && not (any (is_recent_digest env db.org_context) db.notifications)
    && not (has_nothing db)

-- `{score:3d}`
unfoldable pub in_three : ℕ → String
unfolding str
in_three n = cat (if ltb n 10 then "  " else if ltb n 100 then " " else "") (str n)

unfoldable pub match_line : ℕ × String → String
unfolding in_three left
match_line (score, title) = cat "  [" (cat (in_three score) (cat "] " (left 80 title)))

unfoldable pub digest_lines : Mailing → String → Db → List String
unfolding match_line translate str
digest_lines m locale db =
    cat (translate (m.catalogue locale) ("today" ∷ "newMatches" ∷ []) "Nouveaux avis pertinents")
        ":"
      ∷ ""
      ∷ map match_line (digest_matches db)
    ++ (if expiring db == 0
        then []
        else ""
          ∷ cat (translate (m.catalogue locale) ("today" ∷ "vaultAlerts" ∷ []) "Documents")
              (cat ": " (str (expiring db)))
          ∷ [])
    ++ "" ∷ cat m.app_url "/today" ∷ []

unfoldable pub digest_message : Mailing → String → Db → Recipient → Message
unfolding digest_lines joined
digest_message m locale db recipient = record {
  subject = cat "BidPilot — " (
      cat (str (length (digest_matches db)))
        (if str_eq locale "fr" then " nouveaux avis" else " new notices"));
  from = m.email_from;
  to = recipient.email;
  body = joined (digest_lines m locale db);
}

abbrev pub digest_row : Env → String → ℕ → NotificationRow
digest_row env org_id drawn = record {
  id = new_id env "ntf" drawn;
  org_id = org_id;
  kind = "digest.daily";
  tender_id = none;
  title = "";
  deadline_at = none;
  offset_working_days = none;
  created_at = env.now;
  sent_at = none;
  ack_at = none;
}

abbrev pub record_digest : Env → String → M (Unit {0})
record_digest env org_id db = return tt (record db {
  notifications = db.notifications ++ digest_row env org_id db.drawn ∷ [];
  drawn = db.drawn + 1;
})

-- A refused digest is logged and left.
unfoldable pub mail_all : Transport → (Recipient → Message) → List Recipient → Attempts → Attempts
mail_all transport message [] attempts = attempts
mail_all transport message (r ∷ rs) attempts =
    mail_all transport message rs (attempts ++ (message r, transport attempts (message r)) ∷ [])

-- The counters, with the attempts.
pub record Digests : Type 0 where
  pub digests : ℕ
  pub skipped : ℕ
  pub attempts : Attempts

-- The message is made of the tables before the digest is recorded.
unfoldable pub digest_when :
    Role → Env → Transport → Mailing → String → OrgRow → Digests → Bool → M Digests
unfolding mail_all recipients_for_org digest_message known_locale
digest_when role env transport mailing org_id org s false db =
    return (record s { skipped = s.skipped + 1 }) db
digest_when role env transport mailing org_id org s true db =
    let message = digest_message mailing (known_locale (locale_or_fr org.locale)) db in
    (record_digest env org_id >>= λ _. recipients_for_org role org_id >>= λ people.
    return (record s {
      digests = s.digests + 1;
      attempts = mail_all transport message people s.attempts;
    }))
      db

abbrev pub is_org : Option String → String → OrgRow → Bool
is_org ctx org_id o = is_visible ctx o.id && str_eq o.id org_id

unfoldable pub digest_of :
    Role → Env → LocalHour → Transport → Mailing → String → Digests → Option OrgRow → M Digests
unfolding digest_when is_due
digest_of role env local_hour transport mailing org_id s none db = return s db
digest_of role env local_hour transport mailing org_id s (some org) db =
    digest_when role env transport mailing org_id org s (is_due env local_hour org db) db

unfoldable pub digest_for_org :
    Role → Env → LocalHour → Transport → Mailing → String → Digests → M Digests
unfolding digest_of
digest_for_org role env local_hour transport mailing org_id s = do
  set_org_context role (some org_id)
  λ db.
      digest_of role env local_hour transport mailing org_id s
        (find (is_org db.org_context org_id) db.orgs) db

unfoldable pub digest_orgs :
    Role → Env → LocalHour → Transport → Mailing → Digests → List String → M Digests
unfolding digest_for_org
digest_orgs role env local_hour transport mailing s [] = return s
digest_orgs role env local_hour transport mailing s (org_id ∷ orgs) = do
  t ← digest_for_org role env local_hour transport mailing org_id s
  digest_orgs role env local_hour transport mailing t orgs

unfoldable pub run_daily_digest :
    Role → Env → LocalHour → Transport → Mailing → Option (List String) → M Digests
unfolding digest_orgs
run_daily_digest role env local_hour transport mailing org_ids = do
  s ← λ db.
      digest_orgs role env local_hour transport mailing
        (record { digests = 0; skipped = 0; attempts = [] }) (chosen org_ids db) db
  set_org_context role none
  return s
