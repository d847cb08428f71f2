-- ===== src/Queue/Defs.antt =====
-- The operations of queue.py.
use Prim.Native.String.{◌++◌ as cat}
use bid_pilot.Prelude.{
  ℕ, ◌+◌, ◌*◌, ◌-◌, min, ◌==◌, String, Option, none, some, List, [], ◌∷◌, ◌++◌, map, Bool, true,
  false, not, ◌&&◌, ltb, leb, if◌then◌else◌, str_eq, get_or, take, any, select, update_where, elem,
  or_else, length,
}
use bid_pilot.Prelude.Outcome.{value_error}
use bid_pilot.Scheduler.Text.{left}
use bid_pilot.Store.{Env, M, return, raise, second}
use bid_pilot.Store.Rows.{Payload, JobState, queued, running, done, failed, dead, JobRow}

-- JOB_KINDS
abbrev pub job_kinds : List String
job_kinds =
    "source.fetch" ∷ "notice.normalize" ∷ "notice.dedupe" ∷ "notice.enrich" ∷ "notice.match"
    ∷ "docs.fetch" ∷ "docs.extract" ∷ "analysis.admin" ∷ "analysis.requirements"
    ∷ "analysis.redflags" ∷ "gonogo.compute" ∷ "gen.outline" ∷ "gen.section" ∷ "gen.deck"
    ∷ "gen.forms" ∷ "notify.send" ∷ "digest.daily" ∷ "vault.freshness" ∷ "awards.ingest"
    ∷ "renewals.compute" ∷ "source.health" ∷ "notify.deadlines" ∷ "email.inbound" ∷ []

-- RETRY_BACKOFF_SECONDS
abbrev pub retry_backoff_seconds : List ℕ
retry_backoff_seconds = 30 ∷ 120 ∷ 600 ∷ 1800 ∷ 3600 ∷ []

-- DEFAULT_MAX_ATTEMPTS
abbrev pub default_max_attempts : ℕ
default_max_attempts = 5

-- STALE_RUNNING_AFTER
abbrev pub stale_running_after : ℕ
stale_running_after = 30 * 60 * second

-- class Job: what a claim hands to the worker.
pub record Job : Type 0 where
  pub id : String
  pub kind : String
  pub payload : Payload
  pub attempts : ℕ
  pub max_attempts : ℕ
  pub idempotency_key : String

pub is_last_attempt : Job → Bool
is_last_attempt job = leb job.max_attempts (job.attempts + 1)

unfoldable pub idempotency_key : String → String → String → String
idempotency_key kind entity version = cat kind (cat ":" (cat entity (cat ":" version)))

-- ids.new_id, with the random part drawn from the environment
unfoldable pub new_id : Env → String → ℕ → String
new_id env prefix n = cat prefix (cat "_" (env.ulid n))

abbrev pub has_key : String → JobRow → Bool
has_key key j = str_eq j.idempotency_key key

abbrev pub has_id : String → JobRow → Bool
has_id id j = str_eq j.id id

-- `kind in JOB_KINDS`
unfoldable pub is_job_kind : String → Bool
is_job_kind kind = elem kind job_kinds

abbrev pub new_job : String → String → Payload → ℕ → ℕ → String → JobRow
new_job id kind payload run_at max_attempts key = record {
  id = id;
  kind = kind;
  payload = payload;
  state = queued;
  run_at = run_at;
  attempts = 0;
  max_attempts = max_attempts;
  idempotency_key = key;
  locked_by = none;
  locked_at = none;
  last_error = none;
}

-- `INSERT … ON CONFLICT (idempotency_key) DO NOTHING RETURNING id`. Drawn identifiers are taken to be new,
-- so the primary key is never in conflict.
unfoldable pub insert_job : JobRow → M (Option String)
insert_job row db =
    if any (has_key row.idempotency_key) db.jobs
    then return none db
    else return (some row.id) (record db { jobs = db.jobs ++ row ∷ [] })

-- The row that a call of `enqueue` offers, with the `n`-th identifier drawn.
abbrev pub offered : Env → String → Payload → String → String → Option ℕ → ℕ → ℕ → JobRow
offered env kind payload entity version run_at max_attempts n =
    new_job (new_id env "job" n) kind payload (or_else run_at env.now) max_attempts
      (idempotency_key kind entity version)

-- The optional arguments are explicit: `version`, `run_at` and `max_attempts`.
unfoldable pub enqueue_with :
    Env → String → Payload → String → String → Option ℕ → ℕ → M (Option String)
enqueue_with env kind payload entity version run_at max_attempts db =
    if not (is_job_kind kind)
    then raise (value_error kind) db
    else insert_job (offered env kind payload entity version run_at max_attempts db.drawn)
        (record db { drawn = db.drawn + 1 })

-- A call that leaves `run_at` and `max_attempts` to their defaults.
unfoldable pub enqueue : Env → String → Payload → String → String → M (Option String)
enqueue env kind payload entity version =
    enqueue_with env kind payload entity version none default_max_attempts

unfoldable pub is_queued : JobState → Bool
is_queued queued = true
is_queued _ = false

unfoldable pub is_running : JobState → Bool
is_running running = true
is_running _ = false

-- `AND kind = ANY(:kinds)`, left out when no kinds are given
abbrev pub wanted : List String → String → Bool
wanted [] kind = true
wanted (k ∷ ks) kind = elem kind (k ∷ ks)

-- The WHERE clause of a claim. `locked` tells the rows that other open transactions hold.
unfoldable pub runnable : Env → List String → (String → Bool) → JobRow → Bool
unfolding is_queued
runnable env kinds locked j =
    is_queued j.state && leb j.run_at env.now && not (locked j.id) && wanted kinds j.kind

unfoldable pub insert_by_run_at : JobRow → List JobRow → List JobRow
insert_by_run_at j [] = j ∷ []
insert_by_run_at j (k ∷ ks) =
    let rest = insert_by_run_at j ks in if leb j.run_at k.run_at then j ∷ k ∷ ks else k ∷ rest

-- `ORDER BY run_at`
unfoldable pub order_by_run_at : List JobRow → List JobRow
unfolding insert_by_run_at
order_by_run_at [] = []
order_by_run_at (j ∷ js) = insert_by_run_at j (order_by_run_at js)

abbrev pub job_id : JobRow → String
job_id j = j.id

-- The ids that the common table expression `claimed` holds.
unfoldable pub claimed_ids : Env → List String → (String → Bool) → ℕ → List JobRow → List String
claimed_ids env kinds locked limit jobs =
    map job_id (take limit (order_by_run_at (select (runnable env kinds locked) jobs)))

abbrev pub start_run : Env → JobRow → JobRow
start_run env j = record j {
  state = running;
  locked_by = some env.worker;
  locked_at = some env.now;
  attempts = j.attempts + 1;
}

-- `attempts` was incremented by the claim; the worker gets the count before this run.
abbrev pub to_job : JobRow → Job
to_job j = record {
  id = j.id;
  kind = j.kind;
  payload = j.payload;
  attempts = j.attempts - 1;
  max_attempts = j.max_attempts;
  idempotency_key = j.idempotency_key;
}

abbrev pub id_among : List String → JobRow → Bool
id_among ids j = elem j.id ids

-- `UPDATE jobs SET … WHERE id IN (SELECT id FROM claimed) RETURNING …`
unfoldable pub claim : Env → List String → (String → Bool) → ℕ → M (List Job)
claim env kinds locked limit db =
    let ids = claimed_ids env kinds locked limit db.jobs in
    let jobs = update_where (id_among ids) (start_run env) db.jobs in
    return (map to_job (select (id_among ids) jobs)) (record db { jobs = jobs })

abbrev pub finish : JobRow → JobRow
finish j = record j { state = done; locked_by = none }

unfoldable pub complete : String → M (Unit {0})
complete job_id db = return tt (record db { jobs = update_where (has_id job_id) finish db.jobs })

-- The delay before the run that follows a number of failed ones.
unfoldable pub retry_delay : ℕ → ℕ
retry_delay attempts =
    get_or retry_backoff_seconds (min (attempts - 1) (length retry_backoff_seconds - 1)) 0 * second

-- The new state of a failed job, and the time of its next run.
unfoldable pub after_failure : Env → Job → JobState × Option ℕ
unfolding retry_delay
after_failure env job =
    if leb job.max_attempts (job.attempts + 1)
    then (dead, none)
    else (queued, some (env.now + retry_delay (job.attempts + 1)))

-- The columns that a failure sets.
unfoldable pub failed_row : Env → Job → String → JobRow → JobRow
failed_row env job error j =
    let (state, run_at) = after_failure env job in
    record j {
      state = state;
      run_at = or_else run_at j.run_at;
      locked_by = none;
      last_error = some (left 2000 error);
    }

unfoldable pub fail : Env → Job → String → M JobState
fail env job error db =
    return (after_failure env job).0
      (record db { jobs = update_where (has_id job.id) (failed_row env job error) db.jobs })

-- `locked_at < cutoff`; a NULL passes no comparison.
abbrev pub locked_before : Option ℕ → ℕ → Bool
locked_before none cutoff = false
locked_before (some t) cutoff = ltb t cutoff

unfoldable pub is_stale : Env → ℕ → JobRow → Bool
unfolding is_running
is_stale env older_than j = is_running j.state && locked_before j.locked_at (env.now - older_than)

abbrev pub requeue : JobRow → JobRow
requeue j = record j {
  state = queued;
  locked_by = none;
  last_error = some (or_else j.last_error "reclaimed after worker timeout");
}

-- The result is the number of rows that the UPDATE changed.
unfoldable pub reclaim_stale : Env → ℕ → M ℕ
reclaim_stale env older_than db =
    return (length (select (is_stale env older_than) db.jobs))
      (record db { jobs = update_where (is_stale env older_than) requeue db.jobs })

-- `SELECT count(*) FROM jobs WHERE state = …`, one group of `queue_depth`
unfoldable pub state_code : JobState → ℕ
state_code queued = 0
state_code running = 1
state_code done = 2
state_code failed = 3
state_code dead = 4

unfoldable pub queue_depth : List JobRow → JobState → ℕ
unfolding state_code
queue_depth jobs state = length (select (λ j. state_code j.state == state_code state) jobs)
