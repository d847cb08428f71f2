-- ===== src/Pipeline/Normalize.antt =====
-- The second stage (pipeline.py: `run_normalize`). The operation `normalize` of an adapter is an
-- argument.
use bid_pilot.Prelude.{ℕ, Bool, true, false, String, Option, none, some, [], ◌∷◌, find, str_eq}
use bid_pilot.Prelude.Outcome.{Result, lookup_error}
use bid_pilot.Scheduler.Text.{str}
use bid_pilot.Store.{Env, Db, M, return, raise, lift, ◌>>=◌, ◌>>◌}
use bid_pilot.Store.Rows.{Payload, text, SourceRow, RawRow}
use bid_pilot.Canonical.{CanonicalNotice}
use bid_pilot.Queue.Defs.{enqueue}
use bid_pilot.Sources.{load_source}
use bid_pilot.Fetch.{AdaptersOf, build_adapter}
use bid_pilot.Pipeline.Upsert.{upsert_notice}

-- What `normalize` makes of a raw notice.
abbrev pub Normalizers : Type 0
Normalizers = AdaptersOf (RawRow → Result (CanonicalNotice ℕ))

abbrev pub is_raw : String → RawRow → Bool
is_raw id r = str_eq r.id id

abbrev pub is_source : String → SourceRow → Bool
is_source id s = str_eq s.id id

abbrev pub joined : RawRow → Option SourceRow → Option (RawRow × SourceRow)
joined raw none = none
joined raw (some s) = some (raw, s)

-- A raw notice joined with its source.
unfoldable pub raw_with_source : String → Db → Option (RawRow × SourceRow)
raw_with_source id db = elim (find (is_raw id) db.raw_notices) [
  | none ↦ none
  | some raw ↦ joined raw (find (is_source raw.source_id) db.sources)
]

abbrev pub amended_payload : String → Payload
amended_payload notice_id = ("kind", text "tender.amended") ∷ ("notice_id", text notice_id) ∷ []

unfoldable pub announce_amended : Env → String → ℕ → Bool → M (Unit {0})
announce_amended env notice_id version false = return tt
announce_amended env notice_id version true = do
  enqueue env "notify.send" (amended_payload notice_id) notice_id (str version)
  return tt

unfoldable pub store_notice :
    (ℕ → Bool) → Env → Option String → CanonicalNotice ℕ → M (String × Bool)
unfolding announce_amended
store_notice is_alnum env content_hash n = do
  (notice_id, was_amended) ← upsert_notice is_alnum env n content_hash
  enqueue env "notice.dedupe" (("notice_id", text notice_id) ∷ []) notice_id "1"
  announce_amended env notice_id n.version was_amended
  return (notice_id, was_amended)

unfoldable pub normalize_raw :
    Normalizers → (ℕ → Bool) → Env → String → Option (RawRow × SourceRow) → M (String × Bool)
unfolding store_notice
normalize_raw adapters is_alnum env id none = raise (lookup_error id)
normalize_raw adapters is_alnum env id (some (raw, joined_source)) = do
  source ← load_source joined_source.code
  normalize ← lift (build_adapter adapters source)
  n ← lift (normalize raw)
  store_notice is_alnum env (some raw.content_hash) n

-- The result is the fields `notice_id` and `amended`.
unfoldable pub run_normalize : Normalizers → (ℕ → Bool) → Env → String → M (String × Bool)
unfolding normalize_raw raw_with_source
run_normalize adapters is_alnum env raw_notice_id db =
    normalize_raw adapters is_alnum env raw_notice_id (raw_with_source raw_notice_id db) db
