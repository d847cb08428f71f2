-- ===== src/Worker/Settled.antt =====
-- What `process_one` leaves behind, on every branch.
use bid_pilot.Prelude.{
  ◌+◌, String, ◌≡◌, refl, none, some, List, [], ◌∷◌, ◌++◌, Bool, length, ◌≤◌, ◌<◌, ◌*◌, ◌≢◌,
  update_where, ◌&&◌, str_eq, if◌then◌else◌, ◌⊎◌, leb,
}
use bid_pilot.Prelude.Outcome.{Error, Result, ok, err}
use bid_pilot.Store.{Env, Db, second}
use bid_pilot.Store.Rows.{text, Payload, JobRow, queued, done, dead}
use bid_pilot.Sources.{has_code, degrade}
use bid_pilot.Scheduler.Text.{left}
use bid_pilot.Queue.Defs.{Job, claim, new_id}
use bid_pilot.Queue.Retry.{Rowwise}
use bid_pilot.Worker.Defs.{Handlers, process_one, run_claimed, describe, get_text}

-- The job that failed was the last run of a fetch.
abbrev pub marks_source : Job → Bool
marks_source job = str_eq job.kind "source.fetch" && leb job.max_attempts (job.attempts + 1)

-- The row of the job whose last allowed run has failed: given up.
abbrev pub GivenUp : Job → JobRow → JobRow → Type 0
GivenUp job j j' =
    (job.max_attempts ≤ job.attempts + 1) × (j'.state ≡ dead) × (j'.run_at ≡ j.run_at)

-- The row of a job that failed and may run again, not before 30 seconds and not later than an hour on.
abbrev pub Retried : Env → Job → JobRow → JobRow → Type 0
Retried env job j j' =
    (job.attempts + 1 < job.max_attempts)
    × (j'.state ≡ queued)
    × (env.now + 30 * second ≤ j'.run_at)
    × (j'.run_at ≤ env.now + 3600 * second)

-- The rows of the job record the failure, without a worker; every other row is as it was.
abbrev pub FailedRow : Env → Job → Error → JobRow → JobRow → Type 0
FailedRow env job e j j' =
    (j.id ≡ job.id)
      × (GivenUp job j j' ⊎ Retried env job j j')
      × (j' ≡ record j {
        state = j'.state;
        run_at = j'.run_at;
        locked_by = none;
        last_error = some (left 2000 (describe e));
      })
    ⊎ (j.id ≢ job.id) × (j' ≡ j)

-- The rows of the job are done, without a worker; every other row is as it was.
abbrev pub DoneRow : Job → JobRow → JobRow → Type 0
DoneRow job j j' =
    (j.id ≡ job.id) × (j' ≡ record j { state = done; locked_by = none })
    ⊎ (j.id ≢ job.id) × (j' ≡ j)

-- What a failure leaves of the state in which the job was claimed: nothing but jobs, sources, events and
-- the counter of identifiers has changed.
pub record Failed (env : Env) (job : Job) (e : Error) (db db' : Db) : Type 0 where
  pub jobs : Rowwise (FailedRow env job e) db.jobs db'.jobs
  pub sources : db'.sources ≡ (
      if marks_source job
      then update_where (has_code (get_text "source_code" "?" job.payload)) (degrade env) db.sources
      else db.sources)
  pub events : length db'.events ≡ length db.events + (if marks_source job then 1 else 0)
  pub others :
      db'
      ≡ record db { jobs = db'.jobs; sources = db'.sources; events = db'.events; drawn = db'.drawn }

-- What a run leaves, by how the handler ended: with its writes, or with an exception that undoes them.
abbrev pub Settled : Env → Job → Db → Result (Payload × Db) → Db → Type 0
Settled env job db (ok (result, db₂)) db' =
    Rowwise (DoneRow job) db₂.jobs db'.jobs × (db' ≡ record db₂ { jobs = db'.jobs })
Settled env job db (err e) db' = Failed env job e db db'

-- The state after a source was marked: its row, an event and nothing else.
abbrev marked_db : Env → String → String → Db → Db
marked_db env code error db = record db {
  drawn = db.drawn + 1;
  sources = update_where (has_code code) (degrade env) db.sources;
  events =
      db.events
      ++ record {
        id = new_id env "evt" db.drawn;
        kind = "source.fetch_failed";
        entity = code;
        payload = ("error", text (left 1000 error)) ∷ [];
      }
        ∷ [];
}

module _ (handlers : Handlers) (env env' env'' : Env) (kinds : List String) (locked : String → Bool)
    (db : Db) where
  -- With no job to claim the worker is idle and the table is as the claim left it.
  pub process_one-idle :
      {db₁ : Db}
      → claim env kinds locked 1 db ≡ ok ([], db₁)
      → process_one handlers env env' env'' kinds locked db ≡ ok (none, db₁)
  unfolding process_one run_claimed
  process_one-idle claimed = rw claimed refl
