-- ===== src/Examples/HealthRuns.antt =====
-- Runs of the health monitor.
use bid_pilot.Prelude.{◌+◌, ◌*◌, ◌≡◌, refl, map, ◌↔◌, ◌≤◌, ◌<◌, some, List, [], ◌∷◌, true, length}
use bid_pilot.Prelude.Outcome.{ok}
use bid_pilot.Store.{Db, second}
use bid_pilot.Store.Rows.{official_api, degraded}
use bid_pilot.Sources.{with_event}
use bid_pilot.Queue.Defs.{new_id}
use bid_pilot.Scheduler.Text.{str, strip}
use bid_pilot.Health.Evaluate.{Observation, SourceHealth, evaluate, should_page}
use bid_pilot.Health.Sweep.{
  run_source_health, sweep, persist, assess, observe, is_polled, same_health,
}
use bid_pilot.Health.Facts.{IsOnTime, evaluate-degraded_iff}
use bid_pilot.Health.Swept.{judged, turned, run_source_health-again}
use bid_pilot.Examples.Samples.{at, one_source, boamp}

abbrev seen : Observation
seen = record {
  code = "boamp";
  tier = official_api;
  enabled = true;
  silent_for = some (30000 * second);
  notices_7d = 11;
  notices_prev_7d = 20;
  polled = true;
}

evaluate-degraded_iff_example :
    ((evaluate seen).health ≡ degraded)
    ↔ ((true ≡ true) × (true ≡ true) × IsOnTime seen × (20 ≤ 20) × (10 * 11 < 6 * 20))
evaluate-degraded_iff_example = evaluate-degraded_iff seen

-- The source was last heard at 1000 seconds, and its budget is six hours.
abbrev swept : Db
unfolding sweep persist assess observe is_polled strip evaluate same_health with_event new_id str
    should_page
swept = sweep (at 30000) [] (boamp ∷ []) one_source

abbrev verdicts : List SourceHealth
unfolding assess observe is_polled strip evaluate
verdicts = assess (at 30000) [] boamp ∷ []

swept_once : run_source_health (at 30000) one_source ≡ ok (verdicts, swept)
unfolding run_source_health verdicts swept sweep
swept_once = refl

run_source_health-again_example :
    (verdicts : List SourceHealth) × (db' : Db) × (run_source_health (at 30000) one_source
      ≡ ok (verdicts, db'))
    × (db'.sources ≡ map (judged (at 30000) []) (boamp ∷ []))
    × (length db'.events ≡ 0 + turned (boamp ∷ []) db'.sources)
    × (run_source_health (at 30000) db' ≡ ok (verdicts, db'))
run_source_health-again_example = run_source_health-again (at 30000) one_source (refl, tt)
