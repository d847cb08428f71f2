-- ===== src/Scheduler/Tick.antt =====
-- One tick of the scheduler (scheduler.py: `PLATFORM_SCHEDULE`, `time_bucket`, `tick`).
use Prim.Native.String.{◌++◌ as cat}
use bid_pilot.Prelude.{
  ℕ, ◌+◌, ◌*◌, ◌/◌, max, Bool, false, ◌&&◌, not, String, Option, none, some, List, [], ◌∷◌, select,
  str_eq, if◌then◌else◌,
}
use bid_pilot.Prelude.Outcome.{Result, ok, err}
use bid_pilot.Store.{Env, M, return, ◌>>=◌, second}
use bid_pilot.Store.Rows.{text, SourceRow}
use bid_pilot.Queue.Defs.{enqueue}
use bid_pilot.Scheduler.Text.{str}
use bid_pilot.Scheduler.Cron.{Civil, cron_matches}

abbrev pub minutes : ℕ → ℕ
minutes n = n * 60 * second

-- PLATFORM_SCHEDULE
abbrev pub platform_schedule : List (String × ℕ)
platform_schedule =
    ("source.health", minutes 15)
    ∷ ("notify.deadlines", minutes 15)
    ∷ ("vault.freshness", minutes 360)
    ∷ ("notify.send", minutes 5)
    ∷ ("digest.daily", minutes 60)
    ∷ []

-- `now` without its seconds: the seconds since 1970 of `timestamp()`, the fields that cron reads and
-- the text of `strftime("%Y%m%d%H%M")`.
pub record Minute : Type 0 where
  pub timestamp : ℕ
  pub civil : Civil
  pub label : String

unfoldable pub time_bucket : ℕ → ℕ → String
time_bucket timestamp every = str (timestamp / max 1 (every / second))

-- `SELECT … FROM sources WHERE enabled = true AND schedule <> ''`
abbrev pub is_scheduled : SourceRow → Bool
is_scheduled s = s.enabled && not (str_eq s.schedule "")

abbrev pub count_new : Option String → ℕ → ℕ
count_new none n = n
count_new (some id) n = n + 1

-- `due`, with a malformed schedule caught: its source is skipped.
abbrev pub is_due : Result Bool → Bool
is_due (ok due) = due
is_due (err e) = false

unfoldable pub enqueue_fetch : Env → Minute → SourceRow → M (Option String)
enqueue_fetch env now s =
    enqueue env "source.fetch" (("source_code", text s.code) ∷ []) s.code now.label

-- The loop over the sources, with the number of jobs enqueued so far.
unfoldable pub tick_sources : Env → Minute → ℕ → List SourceRow → M ℕ
tick_sources env now n [] = return n
tick_sources env now n (s ∷ ss) =
    if is_due (cron_matches s.schedule now.civil)
    then (do job ← enqueue_fetch env now s; tick_sources env now (count_new job n) ss)
    else tick_sources env now n ss

unfoldable pub enqueue_periodic : Env → Minute → String → ℕ → M (Option String)
enqueue_periodic env now kind every =
    enqueue env kind [] "platform" (cat kind (cat ":" (time_bucket now.timestamp every)))

-- The loop over the periodic jobs of the platform.
unfoldable pub tick_platform : Env → Minute → ℕ → List (String × ℕ) → M ℕ
tick_platform env now n [] = return n
tick_platform env now n ((kind, every) ∷ rest) = do
  job ← enqueue_periodic env now kind every
  tick_platform env now (count_new job n) rest

-- The number of jobs that a tick enqueued. The other number of the report, that of the enabled sources, is
-- left out.
unfoldable pub tick : Env → Minute → M ℕ
tick env now db =
    (do
      n ← tick_sources env now 0 (select is_scheduled db.sources)
      tick_platform env now n platform_schedule)
      db
