-- ===== src/Queue/Lifecycle.antt =====
-- The life of the jobs under any number of workers (queue.py): the state is the table and the jobs
-- that workers have been handed, and every operation may happen at any time in any order, also from a
-- worker that was taken for dead.
use bid_pilot.Prelude.{
  ℕ, ◌+◌, ◌≤◌, ◌<◌, String, ◌≡◌, Option, some, List, ◌++◌, map, Bool, true, false, arith, elem,
  get_elem?, str_eq, All, IsUnique, is_some,
}
use bid_pilot.Prelude.Outcome.{ok}
use bid_pilot.Store.{Env, Db}
use bid_pilot.Store.Rows.{Payload, JobState, dead, JobRow}
use bid_pilot.Queue.Defs.{
  failed_row, finish, Job, claim, job_id, start_run, is_running, fail, after_failure, complete,
  has_id, reclaim_stale, requeue, enqueue_with, is_job_kind, new_id,
}
use bid_pilot.Queue.Keys.{key_of}

pub record System : Type 0 where
  pub db : Db
  pub held : List Job

-- The ids of the table and of the handed jobs; a new job's ULID is not among them.
abbrev pub IsFresh : String → System → Type 0
IsFresh id s =
    (elem id (map job_id s.db.jobs) ≡ false) × All (λ (h : Job). str_eq id h.id ≡ false) s.held

pub data Step (s : System) : System → Type 0 where
  enqueued :
      (env : Env) (kind : String) (payload : Payload) (entity version : String) (run_at : Option ℕ)
      (max_attempts : ℕ) (r : Option String) (db' : Db)
      → IsFresh (new_id env "job" s.db.drawn) s
      → enqueue_with env kind payload entity version run_at max_attempts s.db ≡ ok (r, db')
      → Step s (record s { db = db' })
  claimed :
      (env : Env) (kinds : List String) (locked : String → Bool) (limit : ℕ) (handles : List Job)
      (db' : Db)
      → claim env kinds locked limit s.db ≡ ok (handles, db')
      → Step s (record { db = db'; held = handles ++ s.held })
  completed :
      (job : Job) (i : ℕ) (db' : Db)
      → get_elem? s.held i ≡ some job
      → complete job.id s.db ≡ ok (tt, db')
      → Step s (record s { db = db' })
  failed :
      (env : Env) (job : Job) (error : String) (i : ℕ) (state : JobState) (db' : Db)
      → get_elem? s.held i ≡ some job
      → fail env job error s.db ≡ ok (state, db')
      → Step s (record s { db = db' })
  reclaimed :
      (env : Env) (older_than n : ℕ) (db' : Db)
      → reclaim_stale env older_than s.db ≡ ok (n, db')
      → Step s (record s { db = db' })

pub data Reach (s : System) : System → Type 0 where
  here : Reach s s
  next : {t u : System} → Reach s t → Step t u → Reach s u

unfoldable pub is_dead : JobState → Bool
is_dead dead = true
is_dead _ = false

-- A row is locked by a worker exactly while it runs, has a kind that is declared, and is given up
-- only when its attempts are used.
pub record RowInv (j : JobRow) : Type 0 where
  pub declared : is_job_kind j.kind ≡ true
  pub lock : is_running j.state ≡ is_some j.locked_by
  pub lock_time : is_running j.state ≡ true → is_some j.locked_at ≡ true
  pub started : is_running j.state ≡ true → 0 < j.attempts
  pub spent : is_dead j.state ≡ true → j.max_attempts ≤ j.attempts

-- The row of a handed job has counted the run for which the job was handed out.
abbrev pub Fits : Job → JobRow → Type 0
Fits h j =
    str_eq j.id h.id ≡ true → (h.attempts + 1 ≤ j.attempts) × (h.max_attempts ≡ j.max_attempts)

pub record Inv (s : System) : Type 0 where
  pub keys : IsUnique (map key_of s.db.jobs)
  pub ids : IsUnique (map job_id s.db.jobs)
  pub rows : All RowInv s.db.jobs
  pub handed : All (λ h. All (Fits h) s.db.jobs) s.held

-- One row under each of the updates.
pub start_run-RowInv : (env : Env) (j : JobRow) → RowInv j → RowInv (start_run env j)
unfolding is_running is_dead
start_run-RowInv env j r = ground arith

pub finish-RowInv : (j : JobRow) → RowInv j → RowInv (finish j)
unfolding is_running is_dead
finish-RowInv j r = ground arith

pub requeue-RowInv : (j : JobRow) → RowInv j → RowInv (requeue j)
unfolding is_running is_dead
requeue-RowInv j r = ground arith

pub failed_row-RowInv :
    (env : Env) (job : Job) (error : String) (j : JobRow)
    → Fits job j
    → RowInv j
    → has_id job.id j ≡ true
    → RowInv (failed_row env job error j)
unfolding is_running is_dead failed_row after_failure
failed_row-RowInv env job error j f r same = ground (arith, f same)
