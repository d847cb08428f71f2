-- ===== src/Alerts/Days.antt =====
-- Working days (alerts.py: `is_working_day`, `working_days_before`). An instant is in UTC, and day 0,
-- the 1st of January of the year 1, is a Monday.
use bid_pilot.Prelude.{
  ℕ, zero, suc, ◌+◌, ◌*◌, ◌/◌, ◌%◌, ◌≤◌, ◌<◌, ◌≡◌, refl, Bool, true, false, arith, ltb,
  if◌then◌else◌, Bool-cases, inl, inr, ap,
}
use bid_pilot.Prelude.Outcome.{Result, ok, err, overflow_error, ◌>>=◌}
use bid_pilot.Store.{day}

-- The day with this number; `weekday()` counts from Monday.
unfoldable pub is_working_day : ℕ → Bool
is_working_day d = ltb (d % 7) 5

-- The loop of `working_days_before` over the number of the day that `moment` lies on. A `datetime`
-- before the year 1 is an OverflowError.
unfoldable pub count_back : ℕ → ℕ → Result ℕ
count_back d zero = ok d
count_back zero (suc remaining) = err overflow_error
count_back (suc d) (suc remaining) =
    count_back d (if is_working_day d then remaining else suc remaining)

unfoldable pub working_days_before : ℕ → ℕ → Result ℕ
working_days_before deadline working_days = do
  d ← count_back (deadline / day) working_days
  ok (d * day + deadline % day)

-- The number of working days among the `k` days from day `d`.
unfoldable pub working_days_in : ℕ → ℕ → ℕ
working_days_in d zero = 0
working_days_in d (suc k) =
    let later = working_days_in (d + 1) k in if is_working_day d then later + 1 else later

-- The days from `m` on before day `d`.
record Reached (d remaining m : ℕ) : Type 0 where
  span : ℕ
  ends : m + span ≡ d
  worked : working_days_in m span ≡ remaining
  starts : 0 < remaining → is_working_day m ≡ true
  stops : remaining ≡ 0 → span ≡ 0

working_days_in-suc :
    (m k : ℕ)
    → working_days_in m (k + 1) ≡ working_days_in m k + (if is_working_day (m + k) then 1 else 0)
unfolding working_days_in
working_days_in-suc m zero = ground (arith, ap is_working_day (n m))
  where
    n : (m : ℕ) → m + 0 ≡ m
    n m = omega arith
working_days_in-suc m (suc k) =
    ground (arith, working_days_in-suc (m + 1) k, ap is_working_day (n m k))
  where
    n : (m k : ℕ) → m + 1 + k ≡ m + suc k
    n m k = omega arith

Reached-work :
    (d r : ℕ) {m : ℕ} → is_working_day d ≡ true → Reached d r m → Reached (suc d) (suc r) m
Reached-work d zero {m} e h =
    let here : m ≡ d = omega (arith, h.ends, h.stops refl) in
    let w = working_days_in-suc m h.span in
    let last = ap is_working_day h.ends in
    record {
      span = h.span + 1;
      ends = omega (arith, h.ends);
      worked = ground (arith, w, h.worked, last);
      starts = λ _. ground (arith, ap is_working_day here);
      stops = λ z. omega arith;
    }
Reached-work d (suc r) {m} e h =
    let w = working_days_in-suc m h.span in
    let last = ap is_working_day h.ends in
    record {
      span = h.span + 1;
      ends = omega (arith, h.ends);
      worked = ground (arith, w, h.worked, last);
      starts = λ _. h.starts (omega arith);
      stops = λ z. omega arith;
    }

Reached-rest :
    (d r : ℕ) {m : ℕ} → is_working_day d ≡ false → Reached d (suc r) m → Reached (suc d) (suc r) m
Reached-rest d r {m} e h =
    let w = working_days_in-suc m h.span in
    let last = ap is_working_day h.ends in
    record {
      span = h.span + 1;
      ends = omega (arith, h.ends);
      worked = ground (arith, w, h.worked, last);
      starts = h.starts;
      stops = λ z. omega arith;
    }

count_back-Reached :
    (d remaining : ℕ) {m : ℕ} → count_back d remaining ≡ ok m → Reached d remaining m
unfolding count_back working_days_in
count_back-Reached d zero {m} h =
    let here : d ≡ m = ground arith in
    record {
      span = 0;
      ends = omega arith;
      worked = refl;
      starts = λ e. absurd (omega arith);
      stops = λ _. refl;
    }
count_back-Reached zero (suc r) h = cc
count_back-Reached (suc d) (suc r) {m} h = elim (Bool-cases (is_working_day d)) [
  | inl e ↦ Reached-work d r e (count_back-Reached d r (rw (e, count_back) at h))
  | inr e ↦ Reached-rest d r e (count_back-Reached d (suc r) (rw (e, count_back) at h))
]

-- One of three days in a row is a working day.
one_of_three :
    (d : ℕ)
    → is_working_day (suc (suc d)) ≡ false
    → is_working_day (suc d) ≡ false
    → is_working_day d ≡ true
unfolding is_working_day
one_of_three d a b = ground arith

pub count_back-total : (r d : ℕ) → 3 * r ≤ d → (m : ℕ) × (count_back d r ≡ ok m)
unfolding count_back
count_back-total zero d h = (d, refl)
count_back-total (suc r) zero h = absurd (omega arith)
count_back-total (suc r) (suc zero) h = absurd (omega arith)
count_back-total (suc r) (suc (suc zero)) h = absurd (omega arith)
count_back-total (suc r) (suc (suc (suc d))) h = elim (Bool-cases (is_working_day (suc (suc d)))) [
  | inl e ↦ rw (e, count_back) (count_back-total r (suc (suc d)) (omega arith))
  | inr e ↦
      rw (e, count_back)
        (elim (Bool-cases (is_working_day (suc d))) [
          | inl f ↦ rw (f, count_back) (count_back-total r (suc d) (omega arith))
          | inr f ↦
              rw (f, count_back)
                (rw (one_of_three d e f, count_back) (count_back-total r d (omega arith)))
        ])
]

-- Some `k` days lie between the instant that is found and the deadline, exactly `n` of them working
-- days, and the first of them is one; the time of day is the deadline's.
abbrev pub Precedes : ℕ → ℕ → ℕ → Type 0
Precedes deadline n m =
    (k : ℕ) × (m + k * day ≡ deadline)
    × (working_days_in (m / day) k ≡ n)
    × (0 < n → is_working_day (m / day) ≡ true)

-- For a deadline that is at least `3 * n` days after the start of the calendar the loop ends with an
-- instant a whole number of days before the deadline, with exactly `n` working days from that
-- instant's day up to the day before the deadline's; the first of them is a working day when `n` is
-- positive.
pub working_days_before-Precedes :
    (deadline n : ℕ)
    → 3 * n ≤ deadline / day
    → (m : ℕ) × (working_days_before deadline n ≡ ok m) × Precedes deadline n m
unfolding working_days_before
working_days_before-Precedes deadline n h =
    let (d, e) = count_back-total n (deadline / day) h in
    let r = count_back-Reached (deadline / day) n e in
    let q : (d * day + deadline % day) / day ≡ d = omega arith in
    (
      d * day + deadline % day,
      rw e refl,
      (r.span, omega (arith, r.ends), rw q r.worked, rw q r.starts),
    )
