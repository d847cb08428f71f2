-- ===== src/Queue/Order.antt =====
-- Which job a claim takes first (queue.py: `ORDER BY run_at`).
use bid_pilot.Prelude.{
  ◌≤◌, String, ◌≡◌, ◌≢◌, refl, sym, subst, List, [], ◌∷◌, map, Bool, true, arith, select, take,
  Bool-cases, ◌⊎◌, inl, inr, leb, All, All-imp, All-selected, All-select, All-placed, get_elem?,
  some, ℕ,
}
use bid_pilot.Store.{Env}
use bid_pilot.Store.Rows.{JobRow}
use bid_pilot.Queue.Defs.{claimed_ids, order_by_run_at, insert_by_run_at, runnable, job_id}

All-insert_by_run_at :
    (P : JobRow → Type 0) (j : JobRow) (js : List JobRow)
    → P j
    → All P js
    → All P (insert_by_run_at j js)
unfolding insert_by_run_at
All-insert_by_run_at P j [] h hs = (h, tt)
All-insert_by_run_at P j (k ∷ ks) h hs =
    let rest = All-insert_by_run_at P j ks h hs.1 in
    elim (Bool-cases (leb j.run_at k.run_at)) [ inl e ↦ rw e (h, hs) | inr e ↦ rw e (hs.0, rest) ]

All-order_by_run_at :
    (P : JobRow → Type 0) (js : List JobRow) → All P js → All P (order_by_run_at js)
unfolding order_by_run_at
All-order_by_run_at P [] h = tt
All-order_by_run_at P (j ∷ js) h =
    All-insert_by_run_at P j (order_by_run_at js) h.0 (All-order_by_run_at P js h.1)

abbrev NotBefore : JobRow → List JobRow → Type 0
NotBefore j = All (λ k. j.run_at ≤ k.run_at)

-- The first row after sorting is the earliest.
insert_by_run_at-NotBefore :
    (x : JobRow) (sorted xs : List JobRow) (j : JobRow) (rest : List JobRow)
    → ((y : JobRow) (ys : List JobRow) → sorted ≡ y ∷ ys → NotBefore y xs)
    → (sorted ≡ [] → xs ≡ [])
    → insert_by_run_at x sorted ≡ j ∷ rest
    → NotBefore j (x ∷ xs)
unfolding insert_by_run_at
insert_by_run_at-NotBefore x [] xs j rest ih empty h =
    let first : j ≡ x = ground arith in
    subst (λ k. NotBefore k (x ∷ xs)) (sym first)
      (omega arith, subst (NotBefore x) (sym (empty refl)) tt)
insert_by_run_at-NotBefore x (y ∷ ys) xs j rest ih empty h =
    elim (Bool-cases (leb x.run_at y.run_at)) [
      | inl e ↦
          let first : j ≡ x = ground arith in
          subst (λ k. NotBefore k (x ∷ xs)) (sym first)
            (
              omega arith,
              All-imp (λ k. y.run_at ≤ k.run_at) (λ k. x.run_at ≤ k.run_at) (λ k h. ground arith) xs
                  (ih y ys refl),
            )
      | inr e ↦
          let first : j ≡ y = ground arith in
          subst (λ k. NotBefore k (x ∷ xs)) (sym first) (ground arith, ih y ys refl)
    ]

insert_by_run_at-ne-nil : (x : JobRow) (js : List JobRow) → insert_by_run_at x js ≢ []
unfolding insert_by_run_at
insert_by_run_at-ne-nil x [] h = cc
insert_by_run_at-ne-nil x (k ∷ ks) h = ground arith

order_by_run_at-nil : (xs : List JobRow) → order_by_run_at xs ≡ [] → xs ≡ []
unfolding order_by_run_at
order_by_run_at-nil [] h = refl
order_by_run_at-nil (x ∷ xs) h = absurd (insert_by_run_at-ne-nil x (order_by_run_at xs) h)

order_by_run_at-NotBefore :
    (xs : List JobRow) (j : JobRow) (rest : List JobRow)
    → order_by_run_at xs ≡ j ∷ rest
    → NotBefore j xs
unfolding order_by_run_at
order_by_run_at-NotBefore [] j rest h = cc
order_by_run_at-NotBefore (x ∷ xs) j rest h =
    insert_by_run_at-NotBefore x (order_by_run_at xs) xs j rest (order_by_run_at-NotBefore xs)
      (order_by_run_at-nil xs) h

-- What holds of the selected rows holds of every runnable one.
All-of_select :
    (P : JobRow → Type 0) (p : JobRow → Bool) (js : List JobRow)
    → All P (select p js)
    → All (λ k. p k ≡ true → P k) js
All-of_select P p [] h = tt
All-of_select P p (x ∷ xs) h = elim (Bool-cases (p x)) [
  | inl e ↦ let kept = rw e at h in ((λ _. kept.0), All-of_select P p xs kept.1)
  | inr e ↦ ((λ e'. cc), All-of_select P p xs (rw e at h))
]

-- `ids` names one earliest runnable row of the table, or there is none.
abbrev pub EarliestOrNone : Env → List String → (String → Bool) → List JobRow → List String → Type 0
EarliestOrNone env kinds locked jobs ids =
    (ids ≡ []) × All (λ k. runnable env kinds locked k ≡ true → ⊥) jobs
    ⊎ ((j : JobRow) × (i : ℕ) × (get_elem? jobs i ≡ some j)
        × (ids ≡ j.id ∷ [])
        × (runnable env kinds locked j ≡ true)
        × All (λ k. runnable env kinds locked k ≡ true → j.run_at ≤ k.run_at) jobs)

of_sorted :
    (env : Env) (kinds : List String) (locked : String → Bool) (jobs l : List JobRow)
    → order_by_run_at (select (runnable env kinds locked) jobs) ≡ l
    → EarliestOrNone env kinds locked jobs (map job_id (take 1 l))
of_sorted env kinds locked jobs [] e =
    let p = runnable env kinds locked in
    let empty = order_by_run_at-nil (select p jobs) e in
    inl (refl, All-of_select (λ _. ⊥) p jobs (subst (All (λ _. ⊥)) (sym empty) tt))
of_sorted env kinds locked jobs (j ∷ rest) e =
    let p = runnable env kinds locked in
    let each = All-order_by_run_at (λ k. p k ≡ true) (select p jobs) (All-selected p jobs) in
    let first : All (λ k. p k ≡ true) (j ∷ rest) = rw e at each in
    let places =
      All-order_by_run_at (λ k. (i : ℕ) × (get_elem? jobs i ≡ some k)) (select p jobs)
        (All-select (λ k. (i : ℕ) × (get_elem? jobs i ≡ some k)) p jobs (All-placed jobs)) in
    let place : All (λ k. (i : ℕ) × (get_elem? jobs i ≡ some k)) (j ∷ rest) = rw e at places in
    inr (
      j,
      place.0.0,
      place.0.1,
      refl,
      first.0,
      All-of_select (λ k. j.run_at ≤ k.run_at) p jobs
          (order_by_run_at-NotBefore (select p jobs) j rest e),
    )

-- A worker that asks for one job gets a runnable job of the table with the smallest `run_at` among all runnable
-- ones; it gets none only if no job is runnable.
pub claimed_ids-one :
    (env : Env) (kinds : List String) (locked : String → Bool) (jobs : List JobRow)
    → EarliestOrNone env kinds locked jobs (claimed_ids env kinds locked 1 jobs)
unfolding claimed_ids
claimed_ids-one env kinds locked jobs = of_sorted env kinds locked jobs _ refl
