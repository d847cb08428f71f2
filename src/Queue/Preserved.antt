-- ===== src/Queue/Preserved.antt =====
-- Every operation of the queue, whoever calls it and when, keeps the table in order.
use bid_pilot.Prelude.{
  ℕ, zero, suc, ◌≤◌, ◌<◌, String, ◌≡◌, refl, sym, subst, some, List, [], ◌∷◌, map, Bool, true,
  false, arith, elem, update_where, str_eq, if◌then◌else◌, Bool-cases, ◌⊎◌, inl, inr, All, All-imp,
  All-update_where, map-update_where, IsUnique, get_elem?, All-pair, str_eq_comm,
}
use bid_pilot.Prelude.Outcome.{ok}
use bid_pilot.Store.{Env, Db}
use bid_pilot.Store.Rows.{JobState, JobRow}
use bid_pilot.Queue.Defs.{
  failed_row, finish, Job, job_id, to_job, fail, complete, has_id, reclaim_stale, is_stale, requeue,
}
use bid_pilot.Queue.Keys.{key_of}
use bid_pilot.Queue.Lifecycle.{
  System, RowInv, Fits, Inv, finish-RowInv, requeue-RowInv, failed_row-RowInv,
}

-- An update that keeps the ids, keys and bounds and never takes back an attempt.
module _ (p : JobRow → Bool) (f : JobRow → JobRow)
    (same_key : (j : JobRow) → key_of (f j) ≡ key_of j)
    (same_id : (j : JobRow) → job_id (f j) ≡ job_id j)
    (same_max : (j : JobRow) → (f j).max_attempts ≡ j.max_attempts)
    (no_less : (j : JobRow) → j.attempts ≤ (f j).attempts) where
  Fits-update : (h : Job) (j : JobRow) → Fits h j → p j ≡ true → Fits h (f j)
  Fits-update h j fits _ e =
      let old = fits (rw (same_id j) at e) in ground (arith, same_max j, no_less j)

  pub handed-update :
      (jobs : List JobRow) (hs : List Job)
      → All (λ h. All (Fits h) jobs) hs
      → All (λ h. All (Fits h) (update_where p f jobs)) hs
  handed-update jobs hs =
      All-imp (λ h. All (Fits h) jobs) (λ h. All (Fits h) (update_where p f jobs))
        (λ h. All-update_where (Fits h) p f (Fits-update h) jobs) hs

  pub update-Inv :
      (s : System) (db' : Db)
      → Inv s
      → db'.jobs ≡ update_where p f s.db.jobs
      → All RowInv (update_where p f s.db.jobs)
      → Inv (record s { db = db' })
  update-Inv s db' inv after rows = record {
    keys =
        subst (λ jobs. IsUnique (map key_of jobs)) (sym after)
          (rw (map-update_where key_of p f same_key s.db.jobs) inv.keys);
    ids =
        subst (λ jobs. IsUnique (map job_id jobs)) (sym after)
          (rw (map-update_where job_id p f same_id s.db.jobs) inv.ids);
    rows = subst (All RowInv) (sym after) rows;
    handed =
        subst (λ jobs. All (λ h. All (Fits h) jobs) s.held) (sym after)
          (handed-update s.db.jobs s.held inv.handed);
  }

All-get_elem? :
    {A : Type 0} (P : A → Type 0) (xs : List A) (i : ℕ) {x : A}
    → All P xs
    → get_elem? xs i ≡ some x
    → P x
All-get_elem? P [] i h e = cc
All-get_elem? P (y ∷ ys) zero h e = subst P (ground arith) h.0
All-get_elem? P (y ∷ ys) (suc i) h e = All-get_elem? P ys i h.1 e

pub complete-Inv :
    (s : System) (job : Job) (db' : Db)
    → Inv s
    → complete job.id s.db ≡ ok (tt, db')
    → Inv (record s { db = db' })
unfolding complete
complete-Inv s job db' inv h =
    update-Inv (has_id job.id) finish (λ j. refl) (λ j. refl) (λ j. refl) (λ j. omega arith) s db'
      inv (ground arith)
      (All-update_where RowInv _ finish (λ j r _. finish-RowInv j r) s.db.jobs inv.rows)

pub reclaim_stale-Inv :
    (s : System) (env : Env) (older_than n : ℕ) (db' : Db)
    → Inv s
    → reclaim_stale env older_than s.db ≡ ok (n, db')
    → Inv (record s { db = db' })
unfolding reclaim_stale
reclaim_stale-Inv s env older_than n db' inv h =
    update-Inv (is_stale env older_than) requeue (λ j. refl) (λ j. refl) (λ j. refl)
      (λ j. omega arith) s db' inv (ground arith)
      (All-update_where RowInv _ requeue (λ j r _. requeue-RowInv j r) s.db.jobs inv.rows)

failed_rows :
    (env : Env) (job : Job) (error : String) (jobs : List JobRow)
    → All RowInv jobs
    → All (Fits job) jobs
    → All RowInv (update_where (has_id job.id) (failed_row env job error) jobs)
failed_rows env job error [] rows fits = tt
failed_rows env job error (j ∷ js) rows fits =
    (step (Bool-cases (has_id job.id j)), failed_rows env job error js rows.1 fits.1)
  where
    step :
        (has_id job.id j ≡ true) ⊎ (has_id job.id j ≡ false)
        → RowInv (if has_id job.id j then failed_row env job error j else j)
    step (inl e) = rw e (failed_row-RowInv env job error j fits.0 rows.0 e)
    step (inr e) = rw e rows.0

pub fail-Inv :
    (s : System) (env : Env) (job : Job) (error : String) (state : JobState) (i : ℕ) (db' : Db)
    → Inv s
    → get_elem? s.held i ≡ some job
    → fail env job error s.db ≡ ok (state, db')
    → Inv (record s { db = db' })
unfolding fail failed_row
fail-Inv s env job error state i db' inv held h =
    let fits = All-get_elem? (λ h. All (Fits h) s.db.jobs) s.held i inv.handed held in
    update-Inv (has_id job.id) (failed_row env job error) (λ j. refl) (λ j. refl) (λ j. refl)
      (λ j. omega arith) s db' inv (ground arith)
      (failed_rows env job error s.db.jobs inv.rows fits)

-- Two rows of one id are one row, so what is reflexive holds between them.
module _ (R : JobRow → JobRow → Type 0) (R_refl : (j : JobRow) → R j j) where
  abbrev pub Alike : JobRow → JobRow → Type 0
  Alike k j = str_eq j.id k.id ≡ true → R k j

  apart : (x : JobRow) (xs : List JobRow) → elem x.id (map job_id xs) ≡ false → All (Alike x) xs
  apart x [] h = tt
  apart x (y ∷ ys) h = ((λ e. cc), apart x ys (ground arith))

  apart_left :
      (x : JobRow) (xs : List JobRow) → elem x.id (map job_id xs) ≡ false → All (λ k. Alike k x) xs
  apart_left x [] h = tt
  apart_left x (y ∷ ys) h =
      ((λ e. ground (arith, str_eq_comm x.id y.id)), apart_left x ys (ground arith))

  pub All-Alike : (xs : List JobRow) → IsUnique (map job_id xs) → All (λ k. All (Alike k) xs) xs
  All-Alike [] u = tt
  All-Alike (x ∷ xs) u = (
    ((λ _. R_refl x), apart x xs u.0),
    All-imp _ _ (λ k h. h) xs
        (All-pair (λ k. Alike k x) (λ k. All (Alike k) xs) xs (apart_left x xs u.0)
          (All-Alike xs u.1)),
  )

-- What the handle of a row says of the rows of its id.
abbrev pub Counted : JobRow → JobRow → Type 0
Counted k j = (k.attempts ≤ j.attempts) × (k.max_attempts ≡ j.max_attempts)

pub to_job-Fits :
    (k : JobRow) (jobs : List JobRow)
    → All (Alike Counted (λ j. (omega arith, refl)) k) jobs
    → 0 < k.attempts
    → All (Fits (to_job k)) jobs
to_job-Fits k jobs same pos =
    All-imp (Alike Counted (λ j. (omega arith, refl)) k) (Fits (to_job k))
      (λ j h e. ground (arith, h e)) jobs same
