-- ===== src/Health/Evaluate.antt =====
-- The verdict on one source (health.py: `SILENCE_BUDGET`, `SourceHealth`, `evaluate`). The ratio of the
-- yield check is compared after multiplying out, and the text of a reason is kept as its case.
use bid_pilot.Prelude.{
  ℕ, ◌+◌, ◌*◌, Bool, true, false, ◌&&◌, not, String, Option, none, some, ltb, leb, if◌then◌else◌,
}
use bid_pilot.Store.{second}
use bid_pilot.Store.Rows.{
  Tier, official_api, platform, long_tail, signals, Health, green, degraded, silent, disabled,
}

abbrev pub hours : ℕ → ℕ
hours n = n * 3600 * second

-- SILENCE_BUDGET
abbrev pub silence_budget : Tier → ℕ
silence_budget official_api = hours 6
silence_budget platform = hours 24
silence_budget long_tail = hours 72
silence_budget signals = hours 72

-- MIN_VOLUME_FOR_YIELD_CHECK
abbrev pub min_volume_for_yield_check : ℕ
min_volume_for_yield_check = 20

pub data Reason : Type 0 where
  source_disabled push_source never_ran overdue yield_down stable : Reason

pub record SourceHealth : Type 0 where
  pub code : String
  pub tier : Tier
  pub health : Health
  pub reason : Reason
  pub notices_7d : ℕ
  pub notices_prev_7d : ℕ
  pub silent_for : Option ℕ

unfoldable pub is_silent : Health → Bool
is_silent silent = true
is_silent _ = false

abbrev pub pages_tier : Tier → Bool
pages_tier official_api = true
pages_tier platform = true
pages_tier _ = false

unfoldable pub should_page : SourceHealth → Bool
unfolding is_silent
should_page h = is_silent h.health && pages_tier h.tier

-- The arguments of `evaluate`.
pub record Observation : Type 0 where
  pub code : String
  pub tier : Tier
  pub enabled : Bool
  pub silent_for : Option ℕ
  pub notices_7d : ℕ
  pub notices_prev_7d : ℕ
  pub polled : Bool

abbrev pub verdict : Observation → Health → Reason → SourceHealth
verdict o health reason = record {
  code = o.code;
  tier = o.tier;
  health = health;
  reason = reason;
  notices_7d = o.notices_7d;
  notices_prev_7d = o.notices_prev_7d;
  silent_for = o.silent_for;
}

-- `(prev - cur) / prev > 0.4`, for a volume that is worth comparing
abbrev pub yield_dropped : Observation → Bool
yield_dropped o =
    leb min_volume_for_yield_check o.notices_prev_7d
    && ltb (10 * o.notices_7d + 4 * o.notices_prev_7d) (10 * o.notices_prev_7d)

unfoldable pub evaluate_run : Observation → Option ℕ → SourceHealth
evaluate_run o none = verdict o silent never_ran
evaluate_run o (some t) =
    if ltb (silence_budget o.tier) t
    then verdict o silent overdue
    else if yield_dropped o
    then verdict o degraded yield_down
    else verdict o green stable

unfoldable pub evaluate : Observation → SourceHealth
unfolding evaluate_run
evaluate o =
    if not o.enabled
    then verdict o disabled source_disabled
    else if not o.polled
    then verdict o green push_source
    else evaluate_run o o.silent_for
