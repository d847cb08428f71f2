-- ===== src/Notify/Render.antt =====
-- The mail of a notification (notify.py: `Recipient`, `_translate`, `SUBJECTS`, `render_notification`).
-- The message catalogues, the environment variables and the text of an instant are arguments. A subject's
-- kind has no braces, which `format` would read.
use Prim.Native.String.{◌++◌ as cat}
use bid_pilot.Prelude.{
  ℕ, Bool, String, Option, none, some, List, [], ◌∷◌, ◌++◌, ◌&&◌, elem, find, str_eq, or_else,
  if◌then◌else◌,
}
use bid_pilot.Prelude.Outcome.{Result, ok, err, value_error}
use bid_pilot.Scheduler.Text.{codes, left}
use bid_pilot.Canonical.{or_text}
use bid_pilot.Matching.Filters.{starts_with}
use bid_pilot.Store.Rows.{NotificationRow}

pub record Recipient : Type 0 where
  pub user_id : String
  pub email : String
  pub name : Option String
  pub locale : String

pub record Message : Type 0 where
  pub subject : String
  pub from : String
  pub to : String
  pub body : String

-- A catalogue: texts and dictionaries.
mutual
  pub data Node : Type 0 where
    leaf : String → Node
    tree : Entries → Node

  pub data Entries : Type 0 where
    nothing : Entries
    entry : String → Node → Entries → Entries

unfoldable pub child : String → Entries → Option Node
child key nothing = none
child key (entry k node rest) =
    let other = child key rest in if str_eq k key then some node else other

-- The keys are the parts of the dotted key.
unfoldable pub translate : Node → List String → String → String
unfolding child
translate (leaf s) [] default = s
translate (tree entries) [] default = default
translate (leaf s) (part ∷ parts) default = default
translate (tree entries) (part ∷ parts) default = elim (child part entries) [
  | none ↦ default
  | some node ↦ translate node parts default
]

-- What the process reads from its surroundings.
pub record Mailing : Type 0 where
  pub catalogue : String → Node
  pub app_url : String
  pub email_from : String
  pub iso : ℕ → String
  -- Whether the mail library takes a text as a header; it refuses one with a line break inside.
  pub takes_header : String → Bool

-- `locale if locale in ("fr", "en") else "fr"`
unfoldable pub known_locale : String → String
known_locale locale = if elem locale ("fr" ∷ "en" ∷ []) then locale else "fr"

-- A subject per language; the title follows.
pub record Subject : Type 0 where
  pub kind : String
  pub fr : String
  pub en : String

abbrev pub subjects : List Subject
subjects =
    record { kind = "deadline.j14"; fr = "J-14 : "; en = "14 working days left: " }
    ∷ record { kind = "deadline.j7"; fr = "J-7 : "; en = "7 working days left: " }
    ∷ record { kind = "deadline.j3"; fr = "J-3 : "; en = "3 working days left: " }
    ∷ record { kind = "deadline.j1"; fr = "Demain : "; en = "Due tomorrow: " }
    ∷ record {
      kind = "deadline.escalated";
      fr = "Alerte J-3 non acquittée : ";
      en = "Unacknowledged J-3 alert: ";
    }
    ∷ record { kind = "tender.amended"; fr = "Avis modifié : "; en = "Notice amended: " }
    ∷ record {
      kind = "match.high_score";
      fr = "Nouvel avis pertinent : ";
      en = "New relevant notice: ";
    }
    ∷ []

abbrev pub has_kind : String → Subject → Bool
has_kind kind s = str_eq s.kind kind

-- `title[:90] or kind`
abbrev pub short_title : String → String → String
short_title kind title = or_else (or_text (some (left 90 title)) (some kind)) kind

unfoldable pub subject_of : String → String → String → String
unfolding or_text left
subject_of kind locale title = elim (find (has_kind kind) subjects) [
  | none ↦ kind
  | some s ↦ cat (if str_eq locale "en" then s.en else s.fr) (short_title kind title)
]

unfoldable pub is_deadline : String → Bool
unfolding starts_with
is_deadline kind = starts_with (codes kind) (codes "deadline.")

abbrev pub escalation_line : String → String
escalation_line locale =
    if str_eq locale "fr"
    then "Cette alerte J-3 n'a pas été acquittée depuis 24 heures."
    else "This J-3 alert has been unacknowledged for 24 hours."

abbrev pub amended_line : String → String
amended_line locale =
    if str_eq locale "fr"
    then "L'avis a été modifié à la source. L'analyse doit être revue."
    else "The notice was amended at source. The analysis needs review."

unfoldable pub greeting : Option String → List String
greeting (some (String.◌∷◌ c s)) = cat (String.◌∷◌ c s) "," ∷ "" ∷ []
greeting _ = []

unfoldable pub deadline_line : Mailing → String → Option ℕ → List String
unfolding translate
deadline_line m locale none = []
deadline_line m locale (some deadline) =
    cat (translate (m.catalogue locale) ("notice" ∷ "deadline" ∷ []) "Date limite")
      (cat ": " (m.iso deadline))
    ∷ []

-- The lines between the greeting and the link.
unfoldable pub content : Mailing → String → NotificationRow → List String
unfolding is_deadline deadline_line
content m locale n =
    if is_deadline n.kind
    then n.title ∷ deadline_line m locale n.deadline_at
      ++ (if str_eq n.kind "deadline.escalated" then "" ∷ escalation_line locale ∷ [] else [])
    else if str_eq n.kind "tender.amended"
    then n.title ∷ "" ∷ amended_line locale ∷ []
    else n.title ∷ []

unfoldable pub link_of : Option String → String
link_of (some (String.◌∷◌ c s)) = cat "/tenders/" (String.◌∷◌ c s)
link_of _ = "/today"

-- `"\n".join(lines)`
unfoldable pub joined : List String → String
joined [] = ""
joined (line ∷ []) = line
joined (line ∷ (next ∷ lines)) = cat line (cat "\n" (joined (next ∷ lines)))

unfoldable pub subject_for : NotificationRow → Recipient → String
unfolding subject_of known_locale
subject_for n recipient = subject_of n.kind (known_locale recipient.locale) n.title

-- The headers that the message sets from data.
abbrev pub has_headers : Mailing → NotificationRow → Recipient → Bool
has_headers m n recipient =
    m.takes_header (subject_for n recipient)
    && m.takes_header m.email_from
    && m.takes_header recipient.email

unfoldable pub message_for : Mailing → NotificationRow → Recipient → Message
unfolding subject_for greeting content link_of joined known_locale
message_for m n recipient = record {
  subject = subject_for n recipient;
  from = m.email_from;
  to = recipient.email;
  body = joined (
      greeting recipient.name
      ++ content m (known_locale recipient.locale) n
      ++ "" ∷ cat m.app_url (link_of n.tender_id) ∷ []);
}

-- A header that the library refuses raises.
unfoldable pub render_notification : Mailing → NotificationRow → Recipient → Result Message
unfolding message_for subject_for
render_notification m n recipient =
    if has_headers m n recipient
    then ok (message_for m n recipient)
    else err (value_error "Header values may not contain linefeed or carriage return characters")
