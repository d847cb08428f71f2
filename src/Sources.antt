-- ===== src/Sources.antt =====
-- The source registry (services/ingestion/bidpilot_ingestion/pipeline.py: `load_source`,
-- `record_fetch_failure`).

use bid_pilot.Prelude.{
  ◌+◌, Bool, String, Option, none, some, [], ◌∷◌, ◌++◌, ◌≡◌, length, length-concat, find,
  update_where, str_eq,
}
use bid_pilot.Prelude.Outcome.{lookup_error}
use bid_pilot.Store.{Env, Db, M, return, raise}
use bid_pilot.Store.Rows.{Payload, text, SourceRow, degraded}
use bid_pilot.Scheduler.Text.{left}
use bid_pilot.Queue.Defs.{new_id}

abbrev pub has_code : String → SourceRow → Bool
has_code code s = str_eq s.code code

or_unknown : String → Option SourceRow → M SourceRow
or_unknown code none = raise (lookup_error code)
or_unknown code (some row) = return row

unfoldable pub load_source : String → M SourceRow
unfolding or_unknown
load_source code db = or_unknown code (find (has_code code) db.sources) db

-- The event that an ingestion job records, with the next identifier.
unfoldable pub with_event : Env → String → String → Payload → Db → Db
with_event env kind entity payload db = record db {
  drawn = db.drawn + 1;
  events =
      db.events
      ++ record { id = new_id env "evt" db.drawn; kind = kind; entity = entity; payload = payload }
        ∷ [];
}

pub length-events-with_event :
    (env : Env) (kind entity : String) (payload : Payload) (db : Db)
    → length (with_event env kind entity payload db).events ≡ length db.events + 1
unfolding with_event
length-events-with_event env kind entity payload db = length-concat db.events _

abbrev pub degrade : Env → SourceRow → SourceRow
degrade env s = record s { last_run_at = some env.now; health = degraded }

unfoldable pub record_fetch_failure : Env → String → String → M (Unit {0})
unfolding with_event
record_fetch_failure env source_code error db = return tt (
    with_event env "source.fetch_failed" source_code (("error", text (left 1000 error)) ∷ [])
      (record db { sources = update_where (has_code source_code) (degrade env) db.sources }))
