-- ===== src/Fetch.antt =====
-- The first stage of the pipeline (services/ingestion/bidpilot_ingestion/pipeline.py: `build_adapter`,
-- `store_raw`, `run_source_fetch`). The adapters are an argument.
pub mod Stored
use bid_pilot.Prelude.{
  ℕ, ◌+◌, ◌*◌, Bool, true, false, ◌&&◌, not, String, Option, none, some, List, [], ◌∷◌, ◌++◌, any,
  length, select, update_where, leb, ltb, or_else, str_eq, if◌then◌else◌,
}
use bid_pilot.Prelude.Outcome.{Error, Result, ok, err, value_error}
use bid_pilot.Store.{Env, Db, M, return, raise, ◌>>=◌, ◌>>◌, day}
use bid_pilot.Store.Rows.{text, SourceRow, RawRow, green}
use bid_pilot.Queue.Defs.{new_id, enqueue}
use bid_pilot.Sources.{load_source}

-- What an adapter yields; the payload is its JSON text.
pub record RawNotice : Type 0 where
  pub external_id : String
  pub payload : String
  pub fetched_at : Option ℕ
  pub content_hash : Option String

-- The iterator of `fetch_since`, which may raise at any time.
pub data Notices : Type 0 where
  exhausted : Notices
  failing : Error → Notices
  yielding : RawNotice → Notices → Notices

-- `get_adapter` by the name in the row, which may be unknown, with the operation that is used of the
-- adapter.
abbrev pub AdaptersOf : Type 0 → Type 0
AdaptersOf Operation = SourceRow → Result Operation

-- The operation `fetch_since` takes the watermark.
abbrev pub Adapters : Type 0
Adapters = AdaptersOf (Option ℕ → Notices)

unfoldable pub build_adapter :
    {Operation : Type 0} → AdaptersOf Operation → SourceRow → Result Operation
build_adapter adapters source = elim source.legal_basis [
  | none ↦ err (value_error source.code)
  | some basis ↦ if str_eq basis "" then err (value_error source.code) else adapters source
]

-- The unique key of `raw_notices`.
abbrev pub same_raw : RawRow → RawRow → Bool
same_raw a b =
    str_eq b.source_id a.source_id
    && str_eq b.external_id a.external_id
    && str_eq b.content_hash a.content_hash

abbrev pub raw_row : Env → SourceRow → RawNotice → ℕ → RawRow
raw_row env source raw n = record {
  id = new_id env "raw" n;
  source_id = source.id;
  external_id = raw.external_id;
  fetched_at = or_else raw.fetched_at env.now;
  payload = raw.payload;
  content_hash = or_else raw.content_hash "";
}

-- `INSERT … ON CONFLICT (source_id, external_id, content_hash) DO NOTHING RETURNING id`
unfoldable pub insert_raw : RawRow → M (Option String)
insert_raw row db =
    if any (same_raw row) db.raw_notices
    then return none db
    else return (some row.id) (record db { raw_notices = db.raw_notices ++ row ∷ [] })

unfoldable pub store_raw : Env → SourceRow → RawNotice → M (Option String)
unfolding insert_raw
store_raw env source raw db =
    insert_raw (raw_row env source raw db.drawn) (record db { drawn = db.drawn + 1 })

-- The counters of the loop, and the latest time that was seen.
pub record Progress : Type 0 where
  pub fetched : ℕ
  pub stored : ℕ
  pub latest_seen : Option ℕ

unfoldable pub later_of : Option ℕ → Option ℕ → Option ℕ
later_of none latest = latest
later_of (some t) none = some t
later_of (some t) (some latest) = if ltb latest t then some t else some latest

unfoldable pub enqueue_normalize : Env → SourceRow → Option String → M ℕ
enqueue_normalize env source none = return 0
enqueue_normalize env source (some raw_id) = do
  enqueue env "notice.normalize"
      (("raw_notice_id", text raw_id) ∷ ("source_code", text source.code) ∷ []) raw_id "1"
  return 1

abbrev pub is_reached : Option ℕ → ℕ → Bool
is_reached none fetched = false
is_reached (some limit) fetched = leb limit fetched

-- The body of the loop.
unfoldable pub fetch_one : Env → SourceRow → RawNotice → Progress → M Progress
unfolding later_of
fetch_one env source raw p = do
  raw_id ← store_raw env source raw
  new ← enqueue_normalize env source raw_id
  return (record {
    fetched = p.fetched + 1;
    stored = p.stored + new;
    latest_seen = later_of raw.fetched_at p.latest_seen;
  })

unfoldable pub fetch_all : Env → SourceRow → Option ℕ → Progress → Notices → M Progress
fetch_all env source limit p exhausted = return p
fetch_all env source limit p (failing e) = raise e
fetch_all env source limit p (yielding raw rest) = do
  q ← fetch_one env source raw p
  if is_reached limit q.fetched then return q else fetch_all env source limit q rest

abbrev pub has_source_id : String → SourceRow → Bool
has_source_id id s = str_eq s.id id

abbrev pub is_recent : Env → String → RawRow → Bool
is_recent env id r = str_eq r.source_id id && ltb env.now (r.fetched_at + 7 * day)

-- The UPDATE after a successful pass.
abbrev pub advance : Env → ℕ → Progress → SourceRow → SourceRow
advance env recent p s = record s {
  cursor_since = some (or_else p.latest_seen env.now);
  last_run_at = some env.now;
  last_success_at = some env.now;
  notices_7d = recent;
  health = green;
}

unfoldable pub finish_fetch : Env → SourceRow → Progress → M (ℕ × ℕ)
finish_fetch env source p db =
    let recent = length (select (is_recent env source.id) db.raw_notices) in
    return (p.fetched, p.stored)
      (record db {
        sources = update_where (has_source_id source.id) (advance env recent p) db.sources;
      })

unfoldable pub fetch_with : Env → SourceRow → Option ℕ → Result (Option ℕ → Notices) → M (ℕ × ℕ)
fetch_with env source limit (err e) = raise e
fetch_with env source limit (ok fetch_since) = do
  p ←
      fetch_all env source limit (record { fetched = 0; stored = 0; latest_seen = none })
        (fetch_since source.cursor_since)
  finish_fetch env source p

-- The row that was loaded decides whether anything is fetched.
unfoldable pub fetch_source : Adapters → Env → Option ℕ → SourceRow → M (ℕ × ℕ)
unfolding build_adapter
fetch_source adapters env limit source =
    if not source.enabled
    then return (0, 0)
    else fetch_with env source limit (build_adapter adapters source)

-- The result is the numbers `fetched` and `stored`.
unfoldable pub run_source_fetch : Adapters → Env → String → Option ℕ → M (ℕ × ℕ)
run_source_fetch adapters env source_code limit = do
  source ← load_source source_code
  fetch_source adapters env limit source
