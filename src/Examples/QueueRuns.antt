-- ===== src/Examples/QueueRuns.antt =====
-- Runs of the queue.
use bid_pilot.Prelude.{
  ℕ, ◌+◌, ◌*◌, ◌≡◌, refl, none, some, List, [], ◌∷◌, true, false, any, elem, str_eq,
}
use bid_pilot.Prelude.Outcome.{ok}
use bid_pilot.Store.{Db, second}
use bid_pilot.Store.Rows.{JobRow, queued, dead, done}
use bid_pilot.Scheduler.Text.{str}
use bid_pilot.Scheduler.Text.{left}
use bid_pilot.Queue.Defs.{
  failed_row, idempotency_key, state_code, queue_depth, Job, claim, claimed_ids, order_by_run_at,
  insert_by_run_at, runnable, start_run, to_job, is_queued, is_running, fail, after_failure,
  retry_delay, complete, reclaim_stale, is_stale, insert_job, enqueue_with, offered, is_job_kind,
  new_id, stale_running_after,
}
use bid_pilot.Queue.Keys.{enqueue_with-again}
use bid_pilot.Queue.Claims.{claim_then_claim}
use bid_pilot.Queue.Order.{EarliestOrNone, claimed_ids-one}
use bid_pilot.Queue.Retry.{Rowwise, Reclaimed, changed_states, reclaim_stale-Rowwise}
use bid_pilot.Queue.Lifecycle.{System, Inv, Reach, here, next, enqueued, claimed}
use bid_pilot.Queue.Invariant.{Reach-Inv}
use bid_pilot.Examples.Samples.{at, job, empty, two_jobs, nobody}

program : Unit {0}
unfolding enqueue_with insert_job is_job_kind new_id idempotency_key claim claimed_ids runnable
    is_queued order_by_run_at insert_by_run_at fail failed_row after_failure retry_delay left
    complete reclaim_stale is_stale is_running str queue_depth state_code
program = tt

abbrev after : Db → List JobRow → Db
after db jobs = record db { jobs = jobs; drawn = db.drawn + 1 }

abbrev new_row : JobRow
new_row = offered (at 5) "notice.match" [] "n1" "1" none 5 0

enqueued_once :
    enqueue_with (at 5) "notice.match" [] "n1" "1" none 5 empty
    ≡ ok (some "job_0", after empty (new_row ∷ []))
unfolding program
enqueued_once = refl

enqueue_with-again_example :
    enqueue_with (at 9) "notice.match" [] "n1" "1" none 3 (after empty (new_row ∷ []))
    ≡ ok (none, record (after empty (new_row ∷ [])) { drawn = 2 })
enqueue_with-again_example =
    enqueue_with-again (at 5) (at 9) "notice.match" "n1" "1" [] [] none none 5 3 empty
      (after empty (new_row ∷ [])) (some "job_0") enqueued_once

-- The earlier of the two jobs.
abbrev b_running : JobRow
b_running = start_run (at 30) (job "b" "notice.match" 10)

abbrev after_claim : Db
after_claim = record two_jobs { jobs = job "a" "source.fetch" 20 ∷ b_running ∷ [] }

claimed_b : claim (at 30) [] nobody 1 two_jobs ≡ ok (to_job b_running ∷ [], after_claim)
unfolding program
claimed_b = refl

claim_then_claim_example : elem "b" (claimed_ids (at 31) [] nobody 5 after_claim.jobs) ≡ false
claim_then_claim_example =
    claim_then_claim (at 30) (at 31) [] [] nobody nobody 1 5 two_jobs "b" claimed_b found
  where
    found : any (λ (h : Job). str_eq h.id "b") (to_job b_running ∷ []) ≡ true
    found = refl

claimed_ids-one_example :
    EarliestOrNone (at 30) [] nobody two_jobs.jobs (claimed_ids (at 30) [] nobody 1 two_jobs.jobs)
claimed_ids-one_example = claimed_ids-one (at 30) [] nobody two_jobs.jobs

abbrev patient : Job
patient = record (to_job b_running) { max_attempts = 5 }

abbrev after_fail : Db
after_fail = record after_claim {
  jobs =
      job "a" "source.fetch" 20
      ∷ record b_running {
        state = queued;
        run_at = 70 * second;
        locked_by = none;
        last_error = some "boom";
      }
      ∷ [];
}

failed_b : fail (at 40) patient "boom" after_claim ≡ ok (queued, after_fail)
unfolding program
failed_b = refl

abbrev after_complete : Db
after_complete = record after_claim {
  jobs = job "a" "source.fetch" 20 ∷ record b_running { state = done; locked_by = none } ∷ [];
}

completed_b : complete "b" after_claim ≡ ok (tt, after_complete)
unfolding program
completed_b = refl

abbrev after_reclaim : Db
after_reclaim = record after_claim {
  jobs =
      job "a" "source.fetch" 20
      ∷ record b_running {
        state = queued;
        locked_by = none;
        last_error = some "reclaimed after worker timeout";
      }
      ∷ [];
}

reclaimed_b : reclaim_stale (at 1831) stale_running_after after_claim ≡ ok (1, after_reclaim)
unfolding program
reclaimed_b = refl

reclaim_stale-Rowwise_example :
    (n : ℕ) × (db' : Db) × (reclaim_stale (at 1831) stale_running_after after_claim ≡ ok (n, db'))
    × Rowwise (Reclaimed (at 1831) stale_running_after) after_claim.jobs db'.jobs
    × (n ≡ changed_states after_claim.jobs db'.jobs)
reclaim_stale-Rowwise_example = reclaim_stale-Rowwise (at 1831) stale_running_after after_claim

-- A job is enqueued, and then claimed.
abbrev start : System
start = record { db = empty; held = [] }

abbrev stored : System
stored = record { db = after empty (new_row ∷ []); held = [] }

abbrev taken : System
taken = record {
  db = after empty (start_run (at 6) new_row ∷ []);
  held = to_job (start_run (at 6) new_row) ∷ [];
}

claimed_new : claim (at 6) [] nobody 1 stored.db ≡ ok (taken.held, taken.db)
unfolding program
claimed_new = refl

Reach-taken : Reach start taken
unfolding program
Reach-taken =
    next
      (next here (
        enqueued (at 5) "notice.match" [] "n1" "1" none 5 (some "job_0") stored.db (refl, tt)
          enqueued_once))
      (claimed (at 6) [] nobody 1 taken.held taken.db claimed_new)

start-Inv : Inv start
start-Inv = record { keys = tt; ids = tt; rows = tt; handed = tt }

Reach-Inv_example : Inv taken
Reach-Inv_example = Reach-Inv start-Inv Reach-taken

depths : (queue_depth after_claim.jobs queued ≡ 1) × (queue_depth after_claim.jobs dead ≡ 0)
unfolding program
depths = (refl, refl)
