-- ===== src/Examples/SchedulerRuns.antt =====
-- Runs of the scheduler.
use bid_pilot.Prelude.{ℕ, ◌≡◌, refl, some, [], ◌∷◌, true, false}
use bid_pilot.Prelude.Outcome.{Result, ok, err, value_error}
use bid_pilot.Store.{Db}
use bid_pilot.Queue.Defs.{insert_job, enqueue_with, enqueue, is_job_kind, new_id, idempotency_key}
use bid_pilot.Scheduler.Text.{codes, strip, split_on, words, int, str}
use bid_pilot.Scheduler.Cron.{
  Civil, int_or_raise, at_least_one, step_values, part_bounds, parse_part, parse_parts, parse_field,
  parse_parts_of_line, parse_cron, field_matches, cron_matches,
}
use bid_pilot.Scheduler.Tick.{
  Minute, tick, tick_sources, tick_platform, enqueue_fetch, enqueue_periodic, time_bucket,
}
use bid_pilot.Scheduler.Idempotent.{Grown, tick-Grown, tick-again}
use bid_pilot.Examples.Samples.{at, empty, one_source}

parsing : Unit {0}
unfolding strip split_on words int int_or_raise at_least_one step_values part_bounds parse_part
    parse_parts parse_field parse_parts_of_line parse_cron field_matches cron_matches
parsing = tt

program : Unit {0}
unfolding parsing str insert_job enqueue_with enqueue is_job_kind new_id idempotency_key tick
    tick_sources tick_platform enqueue_fetch enqueue_periodic time_bucket
program = tt

-- Wednesday, a quarter past four
abbrev quarter : Civil
quarter = record { minute = 15; hour = 4; day = 12; month = 8; weekday = 2 }

cron_examples :
    (cron_matches "*/15 * * * *" quarter ≡ ok true)
    × (cron_matches "5-45/10 4 * 1,8 3" quarter ≡ ok true)
    × (cron_matches "0 4 * * *" quarter ≡ ok false)
    × (cron_matches "15 4 * *" quarter ≡ err (value_error "expected 5 cron fields"))
    × (cron_matches "x 4 * * *" quarter ≡ err (value_error "invalid literal for int()"))
unfolding parsing
cron_examples = (refl, refl, refl, refl, refl)

parsed : parse_field 1 31 (codes "30-40/2") ≡ ok (some (30 ∷ []))
unfolding parsing
parsed = refl

abbrev now : Minute
now = record { timestamp = 900; civil = quarter; label = "197001010415" }

tick-Grown_example :
    (m : ℕ) × (db' : Db) × (tick (at 30) now one_source ≡ ok (m, db')) × Grown m one_source db'
tick-Grown_example = tick-Grown (at 30) now one_source

-- The state after the tick, computed.
abbrev state_of : Result (ℕ × Db) → Db
state_of (ok (m, db)) = db
state_of (err e) = empty

abbrev ticked : Db
unfolding program
ticked = state_of (tick (at 30) now one_source)

tick_runs : tick (at 30) now one_source ≡ ok (6, ticked)
unfolding program ticked
tick_runs = refl

tick-again_example : (d : ℕ) × (tick (at 31) now ticked ≡ ok (0, record ticked { drawn = d }))
tick-again_example = tick-again (at 30) (at 31) now one_source ticked 6 tick_runs
