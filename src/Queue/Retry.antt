-- ===== src/Queue/Retry.antt =====
-- Failures, retries and crashes (queue.py: `fail`, `complete`, `reclaim_stale`).
use bid_pilot.Prelude.{
  ℕ, zero, suc, ◌+◌, ◌*◌, ◌-◌, min, ◌≤◌, ◌<◌, String, ◌≡◌, sym, Option, none, some, refl, ◌==◌, not,
  List, [], ◌∷◌, Bool, true, false, arith, elem, select, length, update_where, ◌&&◌, str_eq,
  if◌then◌else◌, any-false, any-update_where, Bool-cases, ◌⊎◌, inl, inr,
}
use bid_pilot.Prelude.Outcome.{ok}
use bid_pilot.Store.{Env, Db, second}
use bid_pilot.Store.Rows.{JobState, queued, running, done, failed, dead, JobRow}
use bid_pilot.Queue.Defs.{
  Job, failed_row, finish, claimed_ids, runnable, is_queued, fail, after_failure, retry_delay,
  complete, has_id, reclaim_stale, is_stale, requeue, is_running, locked_before, state_code,
}
use bid_pilot.Queue.Claims.{claimed_ids-false}

last_index : (n : ℕ) → min (suc (suc (suc (suc (suc n)))) - 1) 4 ≡ 4
last_index n = omega arith

-- The delay before a retry is never shorter than 30 seconds nor longer than an hour, after any number
-- of failed runs.
pub retry_delay_bounds : (n : ℕ) → (30 * second ≤ retry_delay n) × (retry_delay n ≤ 3600 * second)
unfolding retry_delay
retry_delay_bounds zero = omega arith
retry_delay_bounds (suc zero) = omega arith
retry_delay_bounds (suc (suc zero)) = omega arith
retry_delay_bounds (suc (suc (suc zero))) = omega arith
retry_delay_bounds (suc (suc (suc (suc zero)))) = omega arith
retry_delay_bounds (suc (suc (suc (suc (suc n))))) = rw (last_index n, retry_delay) (omega arith)

-- A further failure never shortens the delay.
pub retry_delay_mono : (n : ℕ) → retry_delay n ≤ retry_delay (suc n)
unfolding retry_delay
retry_delay_mono zero = omega arith
retry_delay_mono (suc zero) = omega arith
retry_delay_mono (suc (suc zero)) = omega arith
retry_delay_mono (suc (suc (suc zero))) = omega arith
retry_delay_mono (suc (suc (suc (suc zero)))) = omega arith
retry_delay_mono (suc (suc (suc (suc (suc n))))) =
    rw (last_index n, last_index (suc n), retry_delay) (omega arith)

-- The outcome of a failure: given up once the attempts are used, else queued for later.
pub after_failure_cases :
    (env : Env) (job : Job)
    → (job.max_attempts ≤ job.attempts + 1) × (after_failure env job ≡ (dead, none))
      ⊎ (job.attempts + 1 < job.max_attempts)
        × (after_failure env job ≡ (queued, some (env.now + retry_delay (job.attempts + 1))))
unfolding after_failure
after_failure_cases env job = ground arith

-- The state that a failure reports: `dead` exactly when this run was the last that the job may have.
pub fail-state :
    (env : Env) (job : Job) (error : String) (db : Db) {state : JobState} {db' : Db}
    → fail env job error db ≡ ok (state, db')
    → (state ≡ dead) × (job.max_attempts ≤ job.attempts + 1)
      ⊎ (state ≡ queued) × (job.attempts + 1 < job.max_attempts)
unfolding fail after_failure
fail-state env job error db h = ground arith

module _ (env env' : Env) (job : Job) (error : String) (kinds : List String)
    (locked : String → Bool) (soon : env'.now < env.now + 30 * second) where
  failed_row-not_runnable :
      (j : JobRow)
      → (let j' = if has_id job.id j then failed_row env job error j else j in
          runnable env' kinds locked j' && str_eq j'.id job.id)
        ≡ false
  unfolding runnable is_queued failed_row after_failure
  failed_row-not_runnable j = elim (Bool-cases (has_id job.id j)) [
    | inl e ↦ rw e (ground (arith, retry_delay_bounds (job.attempts + 1)))
    | inr e ↦ rw e (ground arith)
  ]

  -- In the state that a failure leaves no claim takes the job in the 30 seconds that follow.
  pub fail-backs_off :
      (limit : ℕ) (db : Db) {state : JobState} {db' : Db}
      → fail env job error db ≡ ok (state, db')
      → elem job.id (claimed_ids env' kinds locked limit db'.jobs) ≡ false
  unfolding fail
  fail-backs_off limit db {db'} h =
      let after : db'.jobs ≡ update_where (has_id job.id) (failed_row env job error) db.jobs =
        ground arith in
      claimed_ids-false env' kinds locked limit db'.jobs job.id
        (rw (after, any-update_where) (any-false _ failed_row-not_runnable db.jobs))

module _ (env : Env) (job_id : String) (kinds : List String) (locked : String → Bool) where
  finished-not_runnable :
      (j : JobRow)
      → (let j' = if has_id job_id j then finish j else j in
          runnable env kinds locked j' && str_eq j'.id job_id)
        ≡ false
  unfolding runnable is_queued
  finished-not_runnable j = elim (Bool-cases (has_id job_id j)) [
    | inl e ↦ rw e (ground arith)
    | inr e ↦ rw e (ground arith)
  ]

  -- In the state that a completion leaves no claim takes the job, at any later time.
  pub complete-not_claimed :
      (limit : ℕ) (db : Db) {db' : Db}
      → complete job_id db ≡ ok (tt, db')
      → elem job_id (claimed_ids env kinds locked limit db'.jobs) ≡ false
  unfolding complete
  complete-not_claimed limit db {db'} h =
      let after : db'.jobs ≡ update_where (has_id job_id) finish db.jobs = ground arith in
      claimed_ids-false env kinds locked limit db'.jobs job_id
        (rw (after, any-update_where) (any-false _ finished-not_runnable db.jobs))

-- The job is running, and its worker took it longer ago than the limit.
abbrev pub IsSilent : Env → ℕ → JobRow → Type 0
IsSilent env older_than j =
    (j.state ≡ running) × (t : ℕ) × (j.locked_at ≡ some t) × (t < env.now - older_than)

-- The row that a reclaim leaves: queued and unlocked if its worker was silent for too long, with all
-- its other columns kept but for the error, and the row itself if not.
abbrev pub Reclaimed : Env → ℕ → JobRow → JobRow → Type 0
Reclaimed env older_than j j' =
    IsSilent env older_than j
      × (j' ≡ record j { state = queued; locked_by = none; last_error = j'.last_error })
    ⊎ (IsSilent env older_than j → ⊥) × (j' ≡ j)

-- The rows of two tables, one by one.
abbrev pub Rowwise : (JobRow → JobRow → Type 0) → List JobRow → List JobRow → Type 0
Rowwise R [] [] = Unit
Rowwise R (x ∷ xs) (y ∷ ys) = R x y × Rowwise R xs ys
Rowwise R _ _ = ⊥

pub Rowwise-update_where :
    (R : JobRow → JobRow → Type 0) (p : JobRow → Bool) (f : JobRow → JobRow)
    → ((x : JobRow) → R x (if p x then f x else x))
    → (xs : List JobRow) → Rowwise R xs (update_where p f xs)
Rowwise-update_where R p f k [] = tt
Rowwise-update_where R p f k (x ∷ xs) = (k x, Rowwise-update_where R p f k xs)

IsSilent-of :
    (env : Env) (older_than : ℕ) (j : JobRow) (state : JobState) (at : Option ℕ)
    → j.state ≡ state
    → j.locked_at ≡ at
    → (is_running state && locked_before at (env.now - older_than)) ≡ true
    → IsSilent env older_than j
unfolding is_running
IsSilent-of env older_than j running (some t) e f h = (e, t, f, ground arith)
IsSilent-of env older_than j running none e f h = cc
IsSilent-of env older_than j queued at e f h = cc
IsSilent-of env older_than j done at e f h = cc
IsSilent-of env older_than j failed at e f h = cc
IsSilent-of env older_than j dead at e f h = cc

IsSilent-is_stale :
    (env : Env) (older_than : ℕ) (j : JobRow)
    → IsSilent env older_than j
    → is_stale env older_than j ≡ true
unfolding is_stale is_running
IsSilent-is_stale env older_than j (e, t, f, late) = rw (e, f) (ground arith)

requeue-Reclaimed :
    (env : Env) (older_than : ℕ) (j : JobRow)
    → Reclaimed env older_than j (if is_stale env older_than j then requeue j else j)
unfolding is_stale
requeue-Reclaimed env older_than j = elim (Bool-cases (is_stale env older_than j)) [
  | inl e ↦ rw e (inl (IsSilent-of env older_than j j.state j.locked_at refl refl e, refl))
  | inr e ↦ rw e (inr ((λ h. cc (IsSilent-is_stale env older_than j h, e)), refl))
]

-- The number of the rows of one table that differ in their state from those of the other.
unfoldable pub changed_states : List JobRow → List JobRow → ℕ
unfolding state_code
changed_states (x ∷ xs) (y ∷ ys) =
    let rest = changed_states xs ys in
    if state_code x.state == state_code y.state then rest else suc rest
changed_states _ _ = 0

changed_row :
    (env : Env) (older_than : ℕ) (j : JobRow) (b : Bool)
    → is_stale env older_than j ≡ b
    → (state_code j.state == state_code (if b then requeue j else j).state) ≡ not b
unfolding state_code is_stale
changed_row env older_than j true e =
    rw (IsSilent-of env older_than j j.state j.locked_at refl refl e).0 refl
changed_row env older_than j false e = ground arith

reclaimed-changed_states :
    (env : Env) (older_than : ℕ) (jobs : List JobRow)
    → changed_states jobs (update_where (is_stale env older_than) requeue jobs)
      ≡ length (select (is_stale env older_than) jobs)
unfolding changed_states
reclaimed-changed_states env older_than [] = refl
reclaimed-changed_states env older_than (j ∷ js) = ground (
  arith,
  changed_row env older_than j (is_stale env older_than j) refl,
  reclaimed-changed_states env older_than js,
)

-- A reclaim returns. Each job that was running and whose worker took it longer ago than the limit is in
-- the queue again without a worker and with all its other columns but the error kept; every other row is
-- as it was. The number that it reports is that of the jobs whose state has changed.
pub reclaim_stale-Rowwise :
    (env : Env) (older_than : ℕ) (db : Db)
    → (n : ℕ) × (db' : Db) × (reclaim_stale env older_than db ≡ ok (n, db'))
      × Rowwise (Reclaimed env older_than) db.jobs db'.jobs
      × (n ≡ changed_states db.jobs db'.jobs)
unfolding reclaim_stale
reclaim_stale-Rowwise env older_than db = (
  length (select (is_stale env older_than) db.jobs),
  record db { jobs = update_where (is_stale env older_than) requeue db.jobs },
  refl,
  Rowwise-update_where (Reclaimed env older_than) (is_stale env older_than) requeue
      (requeue-Reclaimed env older_than) db.jobs,
  sym (reclaimed-changed_states env older_than db.jobs),
)
