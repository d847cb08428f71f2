-- ===== src/Health/Sweep.antt =====
-- The sweep over all sources (health.py: `run_source_health`).
use bid_pilot.Prelude.{
  ℕ, ◌+◌, ◌*◌, ◌-◌, Bool, true, false, ◌&&◌, not, String, Option, none, some, List, [], ◌∷◌, map,
  ◌≡◌, refl, arith, ltb, leb, if◌then◌else◌, str_eq, select, update_where, length,
}
use bid_pilot.Store.{Env, Db, M, return, day}
use bid_pilot.Store.Rows.{
  Tier, official_api, platform, long_tail, signals, Payload, text, num, RawRow, SourceRow, Health,
  green, degraded, silent, disabled,
}
use bid_pilot.Sources.{has_code, with_event}
use bid_pilot.Scheduler.Text.{codes, strip}
use bid_pilot.Health.Evaluate.{
  Reason, source_disabled, push_source, never_ran, overdue, yield_down, stable, Observation,
  SourceHealth, evaluate, should_page,
}

abbrev week : ℕ
week = 7 * day

-- `r.fetched_at > now() - interval '7 days'`
abbrev in_last_week : Env → String → RawRow → Bool
in_last_week env id r = str_eq r.source_id id && ltb env.now (r.fetched_at + week)

-- The week before.
abbrev in_week_before : Env → String → RawRow → Bool
in_week_before env id r =
    str_eq r.source_id id
    && ltb env.now (r.fetched_at + 2 * week)
    && leb (r.fetched_at + week) env.now

-- `(row["schedule"] or "").strip()` is not empty
unfoldable pub is_polled : String → Bool
is_polled schedule = not (leb (length (strip (codes schedule))) 0)

-- `now() - last_success_at`; a success in the future counts as silent for no time.
abbrev silence : Env → Option ℕ → Option ℕ
silence env none = none
silence env (some t) = some (env.now - t)

-- What the query gathers of a source.
unfoldable pub observe : Env → List RawRow → SourceRow → Observation
observe env raws s = record {
  code = s.code;
  tier = s.tier;
  enabled = s.enabled;
  silent_for = silence env s.last_success_at;
  notices_7d = length (select (in_last_week env s.id) raws);
  notices_prev_7d = length (select (in_week_before env s.id) raws);
  polled = is_polled s.schedule;
}

unfoldable pub same_health : Health → Health → Bool
same_health green green = true
same_health degraded degraded = true
same_health silent silent = true
same_health disabled disabled = true
same_health _ _ = false

abbrev pub is_alarming : Health → Bool
is_alarming silent = true
is_alarming degraded = true
is_alarming _ = false

abbrev pub flag : Bool → ℕ
flag true = 1
flag false = 0

-- The fixed part of a reason's text.
unfoldable pub reason_text : Reason → String
reason_text source_disabled = "source disabled"
reason_text push_source = "push source; not polled"
reason_text never_ran = "never ran"
reason_text overdue = "no successful run"
reason_text yield_down = "extraction yield down"
reason_text stable = "responding, yield stable"

unfoldable pub tier_name : Tier → String
tier_name official_api = "official_api"
tier_name platform = "platform"
tier_name long_tail = "long_tail"
tier_name signals = "signals"

-- The fields of the event's payload.
abbrev pub health_payload : SourceHealth → Payload
health_payload v =
    ("reason", text (reason_text v.reason))
    ∷ ("tier", text (tier_name v.tier))
    ∷ ("notices_7d", num v.notices_7d)
    ∷ ("notices_prev_7d", num v.notices_prev_7d)
    ∷ ("page_operator", num (flag (should_page v)))
    ∷ []

-- `f"source.{verdict.health}"`
abbrev pub event_kind : Health → String
event_kind green = "source.green"
event_kind degraded = "source.degraded"
event_kind silent = "source.silent"
event_kind disabled = "source.disabled"

abbrev pub set_health : Health → SourceRow → SourceRow
set_health h s = record s { health = h }

-- The verdict is stored if it is new, and an alarming one is recorded as an event.
unfoldable pub persist : Env → SourceRow → SourceHealth → Db → Db
persist env row v db =
    let stored = record db {
      sources = update_where (has_code v.code) (set_health v.health) db.sources;
    } in
    if same_health v.health row.health
    then db
    else if is_alarming v.health
    then with_event env (event_kind v.health) v.code (health_payload v) stored
    else stored

unfoldable pub assess : Env → List RawRow → SourceRow → SourceHealth
assess env raws row = evaluate (observe env raws row)

-- The loop over the rows of the query.
unfoldable pub sweep : Env → List RawRow → List SourceRow → Db → Db
sweep env raws [] db = db
sweep env raws (row ∷ rows) db = sweep env raws rows (persist env row (assess env raws row) db)

-- The verdicts, from which the job's report is counted.
unfoldable pub run_source_health : Env → M (List SourceHealth)
run_source_health env db =
    return (map (assess env db.raw_notices) db.sources) (sweep env db.raw_notices db.sources db)

-- The counts that the job reports.
unfoldable pub count_health : Health → List SourceHealth → ℕ
count_health h vs = length (select (λ v. same_health v.health h) vs)

unfoldable pub paging : List SourceHealth → List String
paging vs = map (λ v. v.code) (select should_page vs)

-- The four counts of the report add up to the number of sources checked.
pub count_health-sum :
    (vs : List SourceHealth)
    → count_health green vs
        + count_health degraded vs
        + count_health silent vs
        + count_health disabled vs
      ≡ length vs
unfolding count_health same_health
count_health-sum [] = refl
count_health-sum (v ∷ vs) = ground (arith, count_health-sum vs)
