-- ===== src/Alerts/Due.antt =====
-- Which deadline alerts are due (alerts.py: `DueAlert`, `due_deadline_alerts`).
use Prim.Native.String.{◌++◌ as cat}
use bid_pilot.Prelude.{
  ℕ, ◌≤◌, ◌<◌, ◌≡◌, refl, ap, Bool, true, false, ◌&&◌, arith, String, Option, none, some, List, [],
  ◌∷◌, ◌++◌, leb, any, or_else, str_eq, if◌then◌else◌, Bool-cases, ◌⊎◌, inl, inr, All, All-append,
  subst, ◌/◌, ◌*◌,
}
use bid_pilot.Prelude.Outcome.{Result, ok, err, ◌>>=◌}
use bid_pilot.Store.{day}
use bid_pilot.Store.Rows.{TenderRow}
use bid_pilot.Scheduler.Text.{str}
use bid_pilot.Alerts.Days.{working_days_before, working_days_before-Precedes}

-- DEADLINE_ALERT_OFFSETS, in the order of `sorted(…, reverse=True)`
abbrev pub deadline_alert_offsets : List ℕ
deadline_alert_offsets = 14 ∷ 7 ∷ 3 ∷ 1 ∷ []

pub record DueAlert : Type 0 where
  pub org_id : String
  pub tender_id : String
  pub offset_days : ℕ
  pub deadline_at : ℕ
  pub title : String

-- f"deadline.j{offset}"
unfoldable pub kind_of_offset : ℕ → String
kind_of_offset offset = cat "deadline.j" (str offset)

abbrev pub notification_kind : DueAlert → String
notification_kind a = kind_of_offset a.offset_days

-- The pairs of a tender and a kind for which a notification exists.
abbrev pub Sent : Type 0
Sent = List (String × String)

abbrev pub same_pair : String → String → String × String → Bool
same_pair tender kind (t, k) = str_eq t tender && str_eq k kind

-- `key in already_sent`
unfoldable pub was_sent : Sent → String → String → Bool
was_sent sent tender kind = any (same_pair tender kind) sent

-- The loop over the offsets: the first one that is not sent and due.
unfoldable pub first_due : ℕ → ℕ → Sent → String → List ℕ → Result (Option ℕ)
first_due now deadline sent tender [] = ok none
first_due now deadline sent tender (offset ∷ offsets) =
    let rest = first_due now deadline sent tender offsets in
    if was_sent sent tender (kind_of_offset offset)
    then rest
    else (working_days_before deadline offset >>= λ moment.
        if leb moment now then ok (some offset) else rest)

abbrev pub alert : TenderRow → ℕ → ℕ → DueAlert
alert t deadline offset = record {
  org_id = t.org_id;
  tender_id = t.id;
  offset_days = offset;
  deadline_at = deadline;
  title = or_else t.title "";
}

unfoldable pub alerts_of : TenderRow → ℕ → Option ℕ → List DueAlert
alerts_of t deadline none = []
alerts_of t deadline (some offset) = alert t deadline offset ∷ []

-- The body of the loop over the tenders.
unfoldable pub due_of_deadline : ℕ → Sent → TenderRow → Option ℕ → Result (List DueAlert)
due_of_deadline now sent t none = ok []
due_of_deadline now sent t (some deadline) =
    if leb deadline now
    then ok []
    else (first_due now deadline sent t.id deadline_alert_offsets >>= λ found.
        ok (alerts_of t deadline found))

unfoldable pub due_deadline_alerts : ℕ → Sent → List TenderRow → Result (List DueAlert)
due_deadline_alerts now sent [] = ok []
due_deadline_alerts now sent (t ∷ ts) = do
  here ← due_of_deadline now sent t t.deadline_at
  later ← due_deadline_alerts now sent ts
  ok (here ++ later)

-- The alert is not sent and its moment has come.
abbrev pub IsDue : ℕ → ℕ → Sent → String → ℕ → Type 0
IsDue now deadline sent tender offset =
    (was_sent sent tender (kind_of_offset offset) ≡ false)
    × (m : ℕ) × (working_days_before deadline offset ≡ ok m)
    × (m ≤ now)

-- The alert was sent, or its moment has not come.
abbrev pub IsSettled : ℕ → ℕ → Sent → String → ℕ → Type 0
IsSettled now deadline sent tender offset =
    (was_sent sent tender (kind_of_offset offset) ≡ true)
    ⊎ ((m : ℕ) × (working_days_before deadline offset ≡ ok m) × (now < m))

-- The offset that fires is due, and all offsets before it in the list are settled; none fires only if
-- all are settled.
abbrev pub Fires : ℕ → ℕ → Sent → String → List ℕ → Option ℕ → Type 0
Fires now deadline sent tender offsets none = All (IsSettled now deadline sent tender) offsets
Fires now deadline sent tender offsets (some offset) =
    (before : List ℕ) × (after : List ℕ) × (offsets ≡ before ++ offset ∷ after)
    × IsDue now deadline sent tender offset
    × All (IsSettled now deadline sent tender) before

skip :
    (now deadline : ℕ) (sent : Sent) (tender : String) (offset : ℕ) (offsets : List ℕ)
    (found : Option ℕ)
    → IsSettled now deadline sent tender offset
    → Fires now deadline sent tender offsets found
    → Fires now deadline sent tender (offset ∷ offsets) found
skip now deadline sent tender o os none s f = (s, f)
skip now deadline sent tender o os (some p) s (before, after, e, due, settled) =
    (o ∷ before, after, ap (λ l. o ∷ l) e, due, (s, settled))

pub first_due-Fires :
    (now deadline : ℕ) (sent : Sent) (tender : String) (offsets : List ℕ)
    → All (λ o. (m : ℕ) × (working_days_before deadline o ≡ ok m)) offsets
    → (found : Option ℕ) × (first_due now deadline sent tender offsets ≡ ok found)
      × Fires now deadline sent tender offsets found
unfolding first_due
first_due-Fires now deadline sent tender [] far = (none, refl, tt)
first_due-Fires now deadline sent tender (o ∷ os) ((m, at_m), far) =
    let (found, e, f) = first_due-Fires now deadline sent tender os far in
    elim (Bool-cases (was_sent sent tender (kind_of_offset o))) [
      | inl old ↦ (found, rw old e, skip now deadline sent tender o os found (inl old) f)
      | inr new ↦ elim (Bool-cases (leb m now)) [
        | inl due ↦
            (some o, rw (new, at_m, due) refl, ([], os, refl, (new, m, at_m, ground arith), tt))
        | inr early ↦ (
          found,
          rw (new, at_m, early) e,
          skip now deadline sent tender o os found (inr (m, at_m, ground arith)) f,
        )
      ]
    ]

-- A tender whose deadline lies ahead (and at least 42 days after the start of the calendar) raises one
-- alert or none. The alert is one that was not sent and whose moment has come; every larger offset was
-- sent or lies ahead. None is raised only if each of the four offsets was sent or lies ahead.
pub due_of_deadline-Fires :
    (now : ℕ) (sent : Sent) (t : TenderRow) (deadline : ℕ)
    → now < deadline
    → 42 ≤ deadline / day
    → (found : Option ℕ) × (due_of_deadline now sent t (some deadline)
        ≡ ok (alerts_of t deadline found))
      × Fires now deadline sent t.id deadline_alert_offsets found
unfolding due_of_deadline
due_of_deadline-Fires now sent t deadline ahead late =
    let reach : (n : ℕ)
        → 3 * n ≤ deadline / day
        → (m : ℕ) × (working_days_before deadline n ≡ ok m) =
      λ n h. let (m, e, _) = working_days_before-Precedes deadline n h in (m, e) in
    let far : All (λ o. (m : ℕ) × (working_days_before deadline o ≡ ok m)) deadline_alert_offsets =
      (
        reach 14 (omega arith),
        (reach 7 (omega arith), (reach 3 (omega arith), (reach 1 (omega arith), tt))),
      ) in
    let (found, e, f) = first_due-Fires now deadline sent t.id deadline_alert_offsets far in
    let future : leb deadline now ≡ false = ground arith in (found, rw (future, e) refl, f)

-- Alerts of which none was sent.
abbrev pub Unsent : Sent → List DueAlert → Type 0
Unsent sent = All (λ a. was_sent sent a.tender_id (notification_kind a) ≡ false)

first_due-unsent :
    (now deadline : ℕ) (sent : Sent) (tender : String) (offsets : List ℕ) {offset : ℕ}
    → first_due now deadline sent tender offsets ≡ ok (some offset)
    → was_sent sent tender (kind_of_offset offset) ≡ false
unfolding first_due
first_due-unsent now deadline sent tender [] h = cc
first_due-unsent now deadline sent tender (o ∷ os) {offset} h =
    elim (Bool-cases (was_sent sent tender (kind_of_offset o))) [
      | inl old ↦ first_due-unsent now deadline sent tender os (rw (old, first_due) at h)
      | inr new ↦
          later (working_days_before deadline o)
            (λ k. first_due-unsent now deadline sent tender os k) (rw (new, first_due) at h) new
    ]
  where
    later :
        (r : Result ℕ)
        → (first_due now deadline sent tender os ≡ ok (some offset)
            → was_sent sent tender (kind_of_offset offset) ≡ false)
        → (r >>= λ m. if leb m now then ok (some o) else first_due now deadline sent tender os)
          ≡ ok (some offset)
        → was_sent sent tender (kind_of_offset o) ≡ false
        → was_sent sent tender (kind_of_offset offset) ≡ false
    later (err e) ih h new = cc
    later (ok m) ih h new = elim (Bool-cases (leb m now)) [
      | inl due ↦ let same : o ≡ offset = ground arith in rw (← same) new
      | inr early ↦ ih (rw early at h)
    ]

Unsent-of_deadline :
    (now : ℕ) (sent : Sent) (t : TenderRow) (d : Option ℕ) {due : List DueAlert}
    → due_of_deadline now sent t d ≡ ok due
    → Unsent sent due
unfolding due_of_deadline alerts_of
Unsent-of_deadline now sent t none {due} h =
    let nothing : [] ≡ due = ground arith in subst (Unsent sent) nothing tt
Unsent-of_deadline now sent t (some deadline) {due} h = elim (Bool-cases (leb deadline now)) [
  | inl past ↦ let nothing : [] ≡ due = ground arith in subst (Unsent sent) nothing tt
  | inr future ↦
      go (first_due now deadline sent t.id deadline_alert_offsets) refl
        (rw (future, due_of_deadline) at h)
]
  where
    go :
        (r : Result (Option ℕ))
        → first_due now deadline sent t.id deadline_alert_offsets ≡ r
        → (r >>= λ found. ok (alerts_of t deadline found)) ≡ ok due
        → Unsent sent due
    go (err e) same h = cc
    go (ok none) same h =
        let nothing : alerts_of t deadline none ≡ due = ground arith in
        subst (Unsent sent) nothing tt
    go (ok (some o)) same h =
        let one : alerts_of t deadline (some o) ≡ due = ground arith in
        subst (Unsent sent) one
          (first_due-unsent now deadline sent t.id deadline_alert_offsets same, tt)

-- No alert is raised for a tender and an offset that are among those already sent.
pub due_deadline_alerts-Unsent :
    (now : ℕ) (sent : Sent) (ts : List TenderRow) {due : List DueAlert}
    → due_deadline_alerts now sent ts ≡ ok due
    → Unsent sent due
unfolding due_deadline_alerts
due_deadline_alerts-Unsent now sent [] {due} h =
    let nothing : [] ≡ due = ground arith in subst (Unsent sent) nothing tt
due_deadline_alerts-Unsent now sent (t ∷ ts) {due} h =
    go (due_of_deadline now sent t t.deadline_at) (due_deadline_alerts now sent ts) refl
      (λ later k. due_deadline_alerts-Unsent now sent ts k) h
  where
    go :
        (r s : Result (List DueAlert))
        → due_of_deadline now sent t t.deadline_at ≡ r
        → ((later : List DueAlert) → s ≡ ok later → Unsent sent later)
        → (r >>= λ here. (s >>= λ later. ok (here ++ later))) ≡ ok due
        → Unsent sent due
    go (err e) s a b h = cc
    go (ok here) (err e) a b h = cc
    go (ok here) (ok later) a b h =
        let all : here ++ later ≡ due = ground arith in
        subst (Unsent sent) all
          (All-append _ here later (Unsent-of_deadline now sent t t.deadline_at a) (b later refl))
