-- ===== src/Worker/Defs.antt =====
-- `process_one` of worker.py, over the table of handlers.
use Prim.Native.String.{◌++◌ as cat}
use bid_pilot.Prelude.{
  String, Option, none, some, List, [], ◌∷◌, Bool, true, false, ◌&&◌, if◌then◌else◌, str_eq,
}
use bid_pilot.Prelude.Outcome.{
  Error, Result, ok, err, value_error, lookup_error, key_error, integrity_error, not_implemented,
  overflow_error, gateway_error, circuit_open, schema_validation, corpus_missing, rls_bypass,
}
use bid_pilot.Store.{Env, Db, M, return, raise, ◌>>=◌, ◌>>◌}
use bid_pilot.Store.Rows.{Payload, text, num, null, JobState, dead}
use bid_pilot.Queue.Defs.{Job, claim, complete, fail}
use bid_pilot.Sources.{record_fetch_failure}

-- A handler runs in a transaction of its own.
abbrev pub Handler : Type 0
Handler = Env → Payload → M Payload

-- HANDLERS; a kind that is not in the table has no handler.
abbrev pub Handlers : Type 0
Handlers = String → Option Handler

abbrev pub handle_unimplemented : Handler
handle_unimplemented env payload = raise not_implemented

-- `HANDLERS.get(job.kind, _handle_unimplemented)`
abbrev pub handler_for : Option Handler → Handler
handler_for none = handle_unimplemented
handler_for (some h) = h

-- `type(exc).__name__`, and of `str(exc)` the part that tells the cause: the fixed words around it are left
-- out of the values of errors.
unfoldable pub error_name : Error → String
error_name (value_error m) = "ValueError"
error_name (lookup_error m) = "LookupError"
error_name (key_error m) = "KeyError"
error_name (integrity_error m) = "IntegrityError"
error_name not_implemented = "NotImplementedError"
error_name overflow_error = "OverflowError"
error_name (gateway_error m) = "GatewayError"
error_name (circuit_open m) = "CircuitOpenError"
error_name (schema_validation m) = "SchemaValidationError"
error_name (corpus_missing m) = "CorpusMissing"
error_name (rls_bypass m) = "RlsBypassError"

unfoldable pub error_text : Error → String
error_text (value_error m) = m
error_text (lookup_error m) = m
error_text (key_error m) = m
error_text (integrity_error m) = m
error_text not_implemented = "this stage is not implemented yet; see docs/STATUS.md"
error_text overflow_error = "date value out of range"
error_text (gateway_error m) = m
error_text (circuit_open m) = m
error_text (schema_validation m) = m
error_text (corpus_missing m) = m
error_text (rls_bypass m) = m

unfoldable pub describe : Error → String
describe e = cat (error_name e) (cat ": " (error_text e))

-- `payload.get(key, default)` for a text; no job is queued with a null or a number under such a key.
unfoldable pub get_text : String → String → Payload → String
get_text key default [] = default
get_text key default ((k, text s) ∷ rest) =
    let later = get_text key default rest in if str_eq k key then s else later
get_text key default ((k, num n) ∷ rest) = get_text key default rest
get_text key default ((k, null) ∷ rest) = get_text key default rest

unfoldable pub is_dead_letter : JobState → Bool
is_dead_letter dead = true
is_dead_letter _ = false

-- A source that cannot be fetched is marked once its job is given up.
unfoldable pub mark_source : Env → Job → Error → JobState → M (Unit {0})
mark_source env job e state =
    if str_eq job.kind "source.fetch" && is_dead_letter state
    then record_fetch_failure env (get_text "source_code" "?" job.payload) (error_text e)
    else return tt

-- The `except` branch: the failure is recorded.
unfoldable pub settle_failure : Env → Job → Error → M (Option Job)
settle_failure env job e = do
  state ← fail env job (describe e)
  mark_source env job e state
  return (some job)

-- What follows the handler's transaction: it has committed, or it was rolled back to `db`.
unfoldable pub settle : Env → Job → Db → Result (Payload × Db) → Result (Option Job × Db)
settle env job db (ok (result, db')) = (do complete job.id; return (some job)) db'
settle env job db (err e) = settle_failure env job e db

unfoldable pub run_claimed : Handlers → Env → Env → List Job → M (Option Job)
run_claimed handlers env env' [] db = return none db
run_claimed handlers env env' (job ∷ rest) db =
    settle env' job db (handler_for (handlers job.kind) env job.payload db)

-- The claim commits at `env`, the handler runs at `env'` and its end is recorded at `env''`.
unfoldable pub process_one :
    Handlers → Env → Env → Env → List String → (String → Bool) → M (Option Job)
process_one handlers env env' env'' kinds locked = do
  jobs ← claim env kinds locked 1
  run_claimed handlers env' env'' jobs
