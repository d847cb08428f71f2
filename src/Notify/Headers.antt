-- ===== src/Notify/Headers.antt =====
-- Notifications whose messages can be built (notify.py: `render_notification` outside of the `try`).
use bid_pilot.Prelude.{
  ℕ, zero, suc, some, false, ◌||◌, ◌≡◌, refl, Bool, true, String, Option, List, [], ◌∷◌, ◌++◌, map,
  select, take, leb, All, All-imp, All-select, All-update_where, Bool-cases, inl, inr,
}
use bid_pilot.Prelude.Outcome.{ok}
use bid_pilot.Store.{Env}
use bid_pilot.Store.Rows.{NotificationRow, MemberRow}
use bid_pilot.Notify.Render.{
  Recipient, Mailing, has_headers, render_notification, message_for, subject_for,
}
use bid_pilot.Notify.Send.{
  Attempts, Transport, recipient, recipients, is_notifiable, insert_oldest, oldest_first,
  is_pending, pending, deliver, marked,
}
use bid_pilot.Notify.Marks.{mark_all}

-- The mail library takes the headers of the message of a notification to each member.
abbrev pub Takes : Mailing → List MemberRow → NotificationRow → Type 0
Takes mailing members n = All (λ m. has_headers mailing n (recipient m) ≡ true) members

abbrev pub TakesAll : Mailing → List MemberRow → List NotificationRow → Type 0
TakesAll mailing members = All (Takes mailing members)

abbrev pub Builds : Mailing → List Recipient → NotificationRow → Type 0
Builds mailing people n = All (λ r. has_headers mailing n r ≡ true) people

All-recipient :
    (mailing : Mailing) (n : NotificationRow) (p : MemberRow → Bool) (ms : List MemberRow)
    → Takes mailing ms n
    → Builds mailing (map recipient (select p ms)) n
All-recipient mailing n p [] h = tt
All-recipient mailing n p (m ∷ ms) h = elim (Bool-cases (p m)) [
  | inl e ↦ rw e (h.0, All-recipient mailing n p ms h.1)
  | inr e ↦ rw e (All-recipient mailing n p ms h.1)
]

All-insert_oldest :
    (P : NotificationRow → Type 0) (n : NotificationRow) (ns : List NotificationRow)
    → P n
    → All P ns
    → All P (insert_oldest n ns)
unfolding insert_oldest
All-insert_oldest P n [] h hs = (h, tt)
All-insert_oldest P n (x ∷ xs) h hs =
    let rest = All-insert_oldest P n xs h hs.1 in
    elim (Bool-cases (leb n.created_at x.created_at)) [
      | inl e ↦ rw e (h, hs)
      | inr e ↦ rw e (hs.0, rest)
    ]

All-oldest_first :
    (P : NotificationRow → Type 0) (ns : List NotificationRow) → All P ns → All P (oldest_first ns)
unfolding oldest_first
All-oldest_first P [] h = tt
All-oldest_first P (n ∷ ns) h =
    All-insert_oldest P n (oldest_first ns) h.0 (All-oldest_first P ns h.1)

All-take :
    (P : NotificationRow → Type 0) (k : ℕ) (ns : List NotificationRow)
    → All P ns
    → All P (take k ns)
All-take P zero ns h = tt
All-take P (suc k) [] h = tt
All-take P (suc k) (n ∷ ns) h = (h.0, All-take P k ns h.1)

-- The messages of the pending notifications to the recipients can be built.
pub pending-Builds :
    (mailing : Mailing) (limit : ℕ) (ctx : Option String) (org : String) (members : List MemberRow)
    (ns : List NotificationRow)
    → TakesAll mailing members ns
    → All (Builds mailing (recipients (some org) org members)) (pending limit ctx ns)
pending-Builds mailing limit ctx org members ns h =
    let P = Builds mailing (recipients (some org) org members) in
    All-take P limit (oldest_first (select (is_pending ctx) ns)) (
      All-oldest_first P (select (is_pending ctx) ns) (
        All-select P (is_pending ctx) ns (
          All-imp (Takes mailing members) P
            (λ n k. All-recipient mailing n (is_notifiable (some org) org) members k) ns h)))

headers-marked :
    (env : Env) (mailing : Mailing) (n : NotificationRow) (r : Recipient)
    → has_headers mailing n r ≡ true
    → has_headers mailing (marked env n) r ≡ true
unfolding subject_for
headers-marked env mailing n r e = e

-- A mark does not change a message.
pub mark_all-TakesAll :
    (env : Env) (mailing : Mailing) (org : String) (ids : List String) (members : List MemberRow)
    (ns : List NotificationRow)
    → TakesAll mailing members ns
    → TakesAll mailing members (mark_all env org ids ns)
mark_all-TakesAll env mailing org [] members ns h = h
mark_all-TakesAll env mailing org (id ∷ ids) members ns h =
    mark_all-TakesAll env mailing org ids members _
      (All-update_where (Takes mailing members) _ (marked env) (λ n k _. marked-Takes n k) ns h)
  where
    marked-Takes :
        (n : NotificationRow) → Takes mailing members n → Takes mailing members (marked env n)
    marked-Takes n k = All-imp _ _ (λ m e. headers-marked env mailing n (recipient m) e) members k

-- With messages that can be built, the delivery does not raise.
pub deliver-total :
    (transport : Transport) (mailing : Mailing) (n : NotificationRow) (people : List Recipient)
    (attempts : Attempts)
    → Builds mailing people n
    → (b : Bool) × (later : Attempts) × (deliver transport mailing n people attempts
        ≡ ok (b, later))
unfolding deliver render_notification
deliver-total transport mailing n [] attempts h = (false, attempts, refl)
deliver-total transport mailing n (r ∷ rs) attempts h =
    let m = message_for mailing n r in
    let (b, later, e) =
      deliver-total transport mailing n rs (attempts ++ (m, transport attempts m) ∷ []) h.1 in
    (transport attempts m || b, later, rw h.0 (rw e refl))
