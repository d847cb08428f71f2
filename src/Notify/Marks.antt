-- ===== src/Notify/Marks.antt =====
-- The marks of a sweep on the table (notify.py: `run_notify_send`).
use bid_pilot.Prelude.{
  ℕ, suc, zero, ◌≤◌, ◌&&◌, ◌||◌, not, ◌≡◌, refl, ap, ◌∙◌, ◌⊎◌, inl, inr, Bool, true, false, arith,
  String, some, List, [], ◌∷◌, map, any, elem, select, take, length, All, All-imp, update_where,
  any-select, any-map, length-update_where, leb, str_eq, str_eq_comm, eq_refl, Bool-cases,
  if◌then◌else◌,
}
use bid_pilot.Store.{Env}
use bid_pilot.Store.Rows.{NotificationRow}
use bid_pilot.Tenancy.{is_visible}
use bid_pilot.Notify.Send.{insert_oldest, oldest_first, is_pending, pending, marked}

-- The organisation has a notification that was not sent.
abbrev pub has_unsent : String → List NotificationRow → Bool
has_unsent org_id = any (is_pending (some org_id))

-- The marks of several ids.
abbrev pub mark_all : Env → String → List String → List NotificationRow → List NotificationRow
mark_all env org [] ns = ns
mark_all env org (id ∷ ids) ns =
    mark_all env org ids
      (update_where (λ n. is_visible (some org) n.org_id && str_eq n.id id) (marked env) ns)

-- A mark makes nothing unsent.
mark-sent :
    (env : Env) (p : NotificationRow → Bool) (org : String) (ns : List NotificationRow)
    → has_unsent org ns ≡ false
    → has_unsent org (update_where p (marked env) ns) ≡ false
mark-sent env p org [] h = refl
mark-sent env p org (n ∷ ns) h = elim (Bool-cases (p n)) [
  | inl e ↦ rw e (ground (arith, mark-sent env p org ns))
  | inr e ↦ rw e (ground (arith, mark-sent env p org ns))
]

pub mark_all-sent :
    (env : Env) (org other : String) (ids : List String) (ns : List NotificationRow)
    → has_unsent other ns ≡ false
    → has_unsent other (mark_all env org ids ns) ≡ false
mark_all-sent env org other [] ns h = h
mark_all-sent env org other (id ∷ ids) ns h =
    mark_all-sent env org other ids _
      (mark-sent env (λ n. is_visible (some org) n.org_id && str_eq n.id id) other ns h)

pub mark_all-length :
    (env : Env) (org : String) (ids : List String) (ns : List NotificationRow)
    → length (mark_all env org ids ns) ≡ length ns
mark_all-length env org [] ns = refl
mark_all-length env org (id ∷ ids) ns =
    mark_all-length env org ids _ ∙ length-update_where _ (marked env) ns

-- Each unsent notification is among the ids.
pub Listed : String → List String → List NotificationRow → Type 0
Listed org ids = All (λ n. (not (is_pending (some org) n) || elem n.id ids) ≡ true)

mark-Listed :
    (env : Env) (org id : String) (ids : List String) (ns : List NotificationRow)
    → Listed org (id ∷ ids) ns
    → Listed org ids
        (update_where (λ n. is_visible (some org) n.org_id && str_eq n.id id) (marked env) ns)
unfolding Listed
mark-Listed env org id ids [] h = tt
mark-Listed env org id ids (n ∷ ns) h = (
  one (Bool-cases (is_visible (some org) n.org_id && str_eq n.id id)),
  mark-Listed env org id ids ns h.1,
)
  where
    one :
        ((is_visible (some org) n.org_id && str_eq n.id id) ≡ true)
          ⊎ ((is_visible (some org) n.org_id && str_eq n.id id) ≡ false)
        → (not (
              is_pending
                (some org)
                (if is_visible (some org) n.org_id && str_eq n.id id then marked env n else n))
            || elem
                (if is_visible (some org) n.org_id && str_eq n.id id then marked env n else n).id
                ids)
          ≡ true
    one (inl e) = rw e (ground arith)
    one (inr e) = rw e (ground (arith, h.0, str_eq_comm n.id id))

Listed-nil :
    (org : String) (ns : List NotificationRow) → Listed org [] ns → has_unsent org ns ≡ false
unfolding Listed
Listed-nil org [] h = refl
Listed-nil org (n ∷ ns) h = ground (arith, h.0, Listed-nil org ns h.1)

pub Listed-sent :
    (env : Env) (org : String) (ids : List String) (ns : List NotificationRow)
    → Listed org ids ns
    → has_unsent org (mark_all env org ids ns) ≡ false
Listed-sent env org [] ns h = Listed-nil org ns h
Listed-sent env org (id ∷ ids) ns h = Listed-sent env org ids _ (mark-Listed env org id ids ns h)

-- The order of the query loses no notification.
any-insert_oldest :
    (q : NotificationRow → Bool) (n : NotificationRow) (ns : List NotificationRow)
    → any q (insert_oldest n ns) ≡ (q n || any q ns)
unfolding insert_oldest
any-insert_oldest q n [] = refl
any-insert_oldest q n (x ∷ xs) = elim (Bool-cases (leb n.created_at x.created_at)) [
  | inl e ↦ rw e refl
  | inr e ↦ rw e (ground (arith, any-insert_oldest q n xs))
]

any-oldest_first :
    (q : NotificationRow → Bool) (ns : List NotificationRow) → any q (oldest_first ns) ≡ any q ns
unfolding oldest_first
any-oldest_first q [] = refl
any-oldest_first q (n ∷ ns) =
    ground (arith, any-insert_oldest q n (oldest_first ns), any-oldest_first q ns)

length-insert_oldest :
    (n : NotificationRow) (ns : List NotificationRow)
    → length (insert_oldest n ns) ≡ suc (length ns)
unfolding insert_oldest
length-insert_oldest n [] = refl
length-insert_oldest n (x ∷ xs) = elim (Bool-cases (leb n.created_at x.created_at)) [
  | inl e ↦ rw e refl
  | inr e ↦ rw e (ap suc (length-insert_oldest n xs))
]

length-oldest_first : (ns : List NotificationRow) → length (oldest_first ns) ≡ length ns
unfolding oldest_first
length-oldest_first [] = refl
length-oldest_first (n ∷ ns) =
    omega (arith, length-insert_oldest n (oldest_first ns), length-oldest_first ns)

length-select :
    (p : NotificationRow → Bool) (ns : List NotificationRow) → length (select p ns) ≤ length ns
length-select p [] = omega arith
length-select p (n ∷ ns) = ground (arith, length-select p ns)

take-all : (k : ℕ) (ns : List NotificationRow) → length ns ≤ k → take k ns ≡ ns
take-all zero [] h = refl
take-all zero (n ∷ ns) h = absurd (omega arith)
take-all (suc k) [] h = refl
take-all (suc k) (n ∷ ns) h = ap (λ ms. n ∷ ms) (take-all k ns (omega arith))

-- Under a limit that the table respects the query finds every unsent notification.
elem-pending :
    (limit : ℕ) (org : String) (ns : List NotificationRow) (id : String)
    → length ns ≤ limit
    → elem id (map (λ n. n.id) (pending limit (some org) ns))
      ≡ any (λ n. is_pending (some org) n && str_eq n.id id) ns
elem-pending limit org ns id h =
    let ps = select (is_pending (some org)) ns in
    ap (λ ms. elem id (map (λ n. n.id) ms))
      (take-all limit (oldest_first ps)
        (omega (arith, length-oldest_first ps, length-select (is_pending (some org)) ns)))
    ∙ any-map (λ t. str_eq t id) (λ (n : NotificationRow). n.id) (oldest_first ps)
    ∙ any-oldest_first (λ n. str_eq n.id id) ps
    ∙ any-select (λ n. str_eq n.id id) (is_pending (some org)) ns

self_listed :
    (org : String) (ns : List NotificationRow)
    → All
        (λ n.
          (not (is_pending (some org) n)
            || any (λ m. is_pending (some org) m && str_eq m.id n.id) ns)
          ≡ true)
        ns
self_listed org [] = tt
self_listed org (n ∷ ns) = (
  ground (arith, eq_refl n.id),
  All-imp
      (λ k.
        (not (is_pending (some org) k) || any (λ m. is_pending (some org) m && str_eq m.id k.id) ns)
        ≡ true)
      (λ k.
        (not (is_pending (some org) k)
          || any (λ m. is_pending (some org) m && str_eq m.id k.id) (n ∷ ns))
        ≡ true)
      (λ k h. ground arith) ns (self_listed org ns),
)

pub pending-Listed :
    (limit : ℕ) (org : String) (ns : List NotificationRow)
    → length ns ≤ limit
    → Listed org (map (λ n. n.id) (pending limit (some org) ns)) ns
unfolding Listed
pending-Listed limit org ns h =
    All-imp
      (λ n.
        (not (is_pending (some org) n) || any (λ m. is_pending (some org) m && str_eq m.id n.id) ns)
        ≡ true)
      (λ n.
        (not (is_pending (some org) n) || elem n.id (map (λ n. n.id) (pending limit (some org) ns)))
        ≡ true)
      (λ n k. rw (elem-pending limit org ns n.id h) k) ns (self_listed org ns)
