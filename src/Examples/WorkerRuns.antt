-- ===== src/Examples/WorkerRuns.antt =====
-- Runs of the worker.
use bid_pilot.Prelude.{◌≡◌, refl, some, [], ◌∷◌, str_eq, if◌then◌else◌}
use bid_pilot.Prelude.Outcome.{ok, value_error}
use bid_pilot.Store.{Db, return, raise}
use bid_pilot.Store.Rows.{JobRow}
use bid_pilot.Queue.Defs.{
  claim, claimed_ids, order_by_run_at, insert_by_run_at, runnable, start_run, to_job, is_queued,
}
use bid_pilot.Worker.Defs.{Handlers}
use bid_pilot.Worker.Settled.{Settled}
use bid_pilot.Examples.Samples.{at, job, two_jobs, nobody}

program : Unit {0}
unfolding claim claimed_ids runnable is_queued order_by_run_at insert_by_run_at
program = tt

-- Fetches fail and all else succeeds without a write.
abbrev handlers : Handlers
handlers kind =
    if str_eq kind "source.fetch"
    then some (λ env p. raise (value_error "no legal basis"))
    else some (λ env p. return [])

abbrev fetch_job : JobRow
fetch_job = job "a" "source.fetch" 20

abbrev match_job : JobRow
match_job = job "b" "notice.match" 10

abbrev claimed_match : Db
claimed_match = record two_jobs { jobs = fetch_job ∷ start_run (at 30) match_job ∷ [] }

claims_match :
    claim (at 30) [] nobody 1 two_jobs
    ≡ ok (to_job (start_run (at 30) match_job) ∷ [], claimed_match)
unfolding program
claims_match = refl

abbrev claimed_fetch : Db
claimed_fetch = record two_jobs { jobs = start_run (at 30) fetch_job ∷ match_job ∷ [] }

claims_nothing : claim (at 5) [] nobody 1 two_jobs ≡ ok ([], two_jobs)
unfolding program
claims_nothing = refl
