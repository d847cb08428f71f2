-- ===== src/Examples/Samples.antt =====
-- A small database and its surroundings.
use bid_pilot.Prelude.{ℕ, ◌*◌, String, none, some, [], ◌∷◌, Bool, true, false}
use bid_pilot.Store.{Env, Db, second}
use bid_pilot.Store.Rows.{text, JobRow, queued, SourceRow, official_api, green, OrgRow}
use bid_pilot.Scheduler.Text.{str}

-- At a number of seconds.
abbrev pub at : ℕ → Env
at t = record { now = t * second; worker = "host:1"; ulid = str }

abbrev pub empty : Db
empty = record {
  jobs = [];
  sources = [];
  events = [];
  raw_notices = [];
  notices = [];
  notice_versions = [];
  clusters = [];
  orgs = [];
  members = [];
  watch_profiles = [];
  company_profiles = [];
  matches = [];
  tenders = [];
  notifications = [];
  evidences = [];
  org_context = none;
  drawn = 0;
}

abbrev pub job : String → String → ℕ → JobRow
job id kind run_at = record {
  id = id;
  kind = kind;
  payload = ("source_code", text "boamp") ∷ [];
  state = queued;
  run_at = run_at * second;
  attempts = 0;
  max_attempts = 1;
  idempotency_key = id;
  locked_by = none;
  locked_at = none;
  last_error = none;
}

abbrev pub org_row : String → OrgRow
org_row id = record { id = id; tz = "Europe/Paris"; locale = "fr" }

abbrev pub two_jobs : Db
two_jobs = record empty { jobs = job "a" "source.fetch" 20 ∷ job "b" "notice.match" 10 ∷ [] }

abbrev pub boamp : SourceRow
boamp = record {
  id = "src_1";
  code = "boamp";
  country = "FR";
  adapter = "boamp";
  tier = official_api;
  legal_basis = some "open data";
  cursor_since = none;
  enabled = true;
  schedule = "*/15 * * * *";
  health = green;
  last_run_at = none;
  last_success_at = some (1000 * second);
  notices_7d = 0;
}

abbrev pub one_source : Db
one_source = record empty { sources = boamp ∷ [] }

abbrev pub nobody : String → Bool
nobody id = false
