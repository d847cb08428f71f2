-- ===== src/Scheduler/Cron.antt =====
-- Cron expressions (scheduler.py: `_parse_field`, `parse_cron`, `cron_matches`).
pub mod Facts
use bid_pilot.Prelude.{
  ℕ, zero, suc, ◌+◌, ◌-◌, ◌%◌, max, Bool, true, false, ◌&&◌, ◌||◌, Option, none, some, List, [],
  ◌∷◌, ◌++◌, ◌==◌, ltb, leb, if◌then◌else◌, any, select, String,
}
use bid_pilot.Prelude.Outcome.{Result, ok, err, value_error, ◌>>=◌}
use bid_pilot.Scheduler.Text.{codes, strip, split_on, split_once, words, ℤ, pos, negsuc, int}

-- `None` stands for every value; a set of values is a list of them.
pub record CronField : Type 0 where
  pub minutes : Option (List ℕ)
  pub hours : Option (List ℕ)
  pub days : Option (List ℕ)
  pub months : Option (List ℕ)
  pub weekdays : Option (List ℕ)

-- The fields of a `datetime` in UTC that a cron expression reads; `weekday` counts from Monday.
pub record Civil : Type 0 where
  pub minute : ℕ
  pub hour : ℕ
  pub day : ℕ
  pub month : ℕ
  pub weekday : ℕ

abbrev pub elem_ℕ : ℕ → List ℕ → Bool
elem_ℕ v = any (λ w. w == v)

-- `int(text)`, with the ValueError
unfoldable pub int_or_raise : Option ℤ → Result ℤ
int_or_raise none = err (value_error "invalid literal for int()")
int_or_raise (some i) = ok i

-- `max(1, step)`
unfoldable pub at_least_one : ℤ → ℕ
at_least_one (pos n) = max 1 n
at_least_one (negsuc n) = 1

-- `range(start, start + count)`
unfoldable pub range_from : ℕ → ℕ → List ℕ
range_from start zero = []
range_from start (suc n) = start ∷ range_from (start + 1) n

-- `range(start, end + 1)`, but for values below zero, which no field has.
unfoldable pub range_to : ℤ → ℤ → List ℕ
unfolding range_from
range_to (pos a) (pos b) = range_from a (b + 1 - a)
range_to (negsuc a) (pos b) = range_from 0 (b + 1)
range_to _ (negsuc b) = []

-- `(v - start) % step == 0`
unfoldable pub on_step : ℤ → ℕ → ℕ → Bool
on_step (pos a) step v = (v - a) % step == 0
on_step (negsuc a) step v = (v + (a + 1)) % step == 0

unfoldable pub step_values : ℤ → ℤ → ℕ → List ℕ
unfolding range_to on_step
step_values start last step = select (on_step start step) (range_to start last)

-- `part in ("*", "")`
unfoldable pub is_whole : List ℕ → Bool
is_whole [] = true
is_whole (c ∷ []) = c == 42
is_whole (c ∷ d ∷ cs) = false

-- The bounds of a part without its step.
unfoldable pub part_bounds : ℕ → ℕ → List ℕ → Result (ℤ × ℤ)
unfolding split_once int int_or_raise is_whole
part_bounds low high part =
    if is_whole part then ok (pos low, pos high) else elim (split_once 45 part) [
      | some (a, b) ↦ do start ← int_or_raise (int a); last ← int_or_raise (int b); ok (start, last)
      | none ↦ do value ← int_or_raise (int part); ok (value, value)
    ]

-- One part between commas: its values.
unfoldable pub parse_part : ℕ → ℕ → List ℕ → Result (List ℕ)
parse_part low high part = elim (split_once 47 part) [
  | some (body, step_text) ↦ do
    step ← int_or_raise (int step_text)
    (start, last) ← part_bounds low high body
    ok (step_values start last (at_least_one step))
  | none ↦ do (start, last) ← part_bounds low high part; ok (step_values start last 1)
]

-- The loop over the parts.
unfoldable pub parse_parts : ℕ → ℕ → List (List ℕ) → Result (List ℕ)
parse_parts low high [] = ok []
parse_parts low high (part ∷ parts) = do
  values ← parse_part low high part
  others ← parse_parts low high parts
  ok (values ++ others)

abbrev pub in_bounds : ℕ → ℕ → ℕ → Bool
in_bounds low high v = leb low v && leb v high

unfoldable pub is_star : List ℕ → Bool
is_star (c ∷ []) = c == 42
is_star _ = false

unfoldable pub parse_field : ℕ → ℕ → List ℕ → Result (Option (List ℕ))
unfolding is_star
parse_field low high spec = if is_star (strip spec) then ok none else do
  values ← parse_parts low high (split_on 44 (strip spec))
  ok (some (select (in_bounds low high) values))

unfoldable pub parse_parts_of_line : List (List ℕ) → Result CronField
parse_parts_of_line (a ∷ b ∷ c ∷ d ∷ e ∷ []) = do
  minutes ← parse_field 0 59 a
  hours ← parse_field 0 23 b
  days ← parse_field 1 31 c
  months ← parse_field 1 12 d
  weekdays ← parse_field 0 6 e
  ok (record {
    minutes = minutes;
    hours = hours;
    days = days;
    months = months;
    weekdays = weekdays;
  })
parse_parts_of_line _ = err (value_error "expected 5 cron fields")

unfoldable pub parse_cron : String → Result CronField
parse_cron expression = parse_parts_of_line (words (codes expression))

-- `field is None or value in field`
unfoldable pub allows : Option (List ℕ) → ℕ → Bool
allows none v = true
allows (some values) v = elem_ℕ v values

unfoldable pub field_matches : CronField → Civil → Bool
unfolding allows
field_matches field moment =
    allows field.minutes moment.minute
    && allows field.hours moment.hour
    && allows field.days moment.day
    && allows field.months moment.month
    && allows field.weekdays ((moment.weekday + 1) % 7)

unfoldable pub cron_matches : String → Civil → Result Bool
cron_matches expression moment = do field ← parse_cron expression; ok (field_matches field moment)
