-- ===== src/Health/Facts.antt =====
-- When a source is called silent or degraded, and when an operator is paged.
use bid_pilot.Prelude.{
  ℕ, ◌*◌, ◌≤◌, ◌<◌, Bool, true, ◌&&◌, ◌≡◌, ◌↔◌, ◌⊎◌, inl, inr, Option, none, some, arith, refl,
}
use bid_pilot.Store.Rows.{Health, silent, degraded, disabled, green}
use bid_pilot.Health.Evaluate.{
  Observation, evaluate, evaluate_run, silence_budget, should_page, pages_tier, is_silent,
}

-- No successful run within the budget of the tier, or none at all.
abbrev pub IsLate : Observation → Type 0
IsLate o = (o.silent_for ≡ none) ⊎ ((t : ℕ) × (o.silent_for ≡ some t) × (silence_budget o.tier < t))

abbrev pub IsOnTime : Observation → Type 0
IsOnTime o = (t : ℕ) × (o.silent_for ≡ some t) × (t ≤ silence_budget o.tier)

IsLate-run :
    (o : Observation) (s : Option ℕ)
    → o.silent_for ≡ s
    → (evaluate_run o s).health ≡ silent
    → IsLate o
unfolding evaluate_run
IsLate-run o none e h = inl e
IsLate-run o (some t) e h = inr (t, e, ground arith)

silent_run :
    (o : Observation) (s : Option ℕ)
    → o.silent_for ≡ s
    → IsLate o
    → (evaluate_run o s).health ≡ silent
unfolding evaluate_run
silent_run o none e h = refl
silent_run o (some t) e (inl n) = cc
silent_run o (some t) e (inr (u, f, late)) = ground arith

-- A source is called silent exactly when it is enabled, polled and late.
pub evaluate-silent_iff :
    (o : Observation)
    → ((evaluate o).health ≡ silent) ↔ ((o.enabled ≡ true) × (o.polled ≡ true) × IsLate o)
unfolding evaluate
evaluate-silent_iff o = (
  (λ h.
      let run : (o.enabled ≡ true)
          × (o.polled ≡ true)
          × ((evaluate_run o o.silent_for).health ≡ silent) =
        ground arith in
      (run.0, run.1, IsLate-run o o.silent_for refl run.2)),
  λ (on, polled, late). ground (arith, silent_run o o.silent_for refl late),
)

degraded_run :
    (o : Observation) (s : Option ℕ)
    → (evaluate_run o s).health ≡ degraded
    → (t : ℕ) × (s ≡ some t)
      × (t ≤ silence_budget o.tier)
      × (20 ≤ o.notices_prev_7d)
      × (10 * o.notices_7d < 6 * o.notices_prev_7d)
unfolding evaluate_run
degraded_run o none h = cc
degraded_run o (some t) h = (t, refl, ground arith, ground arith, ground arith)

run_degraded :
    (o : Observation) (t : ℕ)
    → t ≤ silence_budget o.tier
    → 20 ≤ o.notices_prev_7d
    → 10 * o.notices_7d < 6 * o.notices_prev_7d
    → (evaluate_run o (some t)).health ≡ degraded
unfolding evaluate_run
run_degraded o t a b c = ground arith

-- A source is called degraded exactly when it is enabled, polled, on time, had at least 20 notices in
-- the week before and has now lost more than 40 percent of them.
pub evaluate-degraded_iff :
    (o : Observation)
    → ((evaluate o).health ≡ degraded) ↔ (
        (o.enabled ≡ true)
        × (o.polled ≡ true)
        × IsOnTime o
        × (20 ≤ o.notices_prev_7d)
        × (10 * o.notices_7d < 6 * o.notices_prev_7d))
unfolding evaluate
evaluate-degraded_iff o = (
  (λ h.
      let run : (o.enabled ≡ true)
          × (o.polled ≡ true)
          × ((evaluate_run o o.silent_for).health ≡ degraded) =
        ground arith in
      let (t, e, fresh, volume, drop) = degraded_run o o.silent_for run.2 in
      (run.0, run.1, (t, e, fresh), volume, drop)),
  λ (on, polled, (t, e, fresh), volume, drop). ground (arith, run_degraded o t fresh volume drop),
)

tier-evaluate : (o : Observation) → (evaluate o).tier ≡ o.tier
unfolding evaluate
tier-evaluate o = ground arith

second_conjunct : (a b : Bool) → (a && b) ≡ true → b ≡ true
second_conjunct a b h = ground arith

silent_of_is_silent : (h : Health) → is_silent h ≡ true → h ≡ silent
unfolding is_silent
silent_of_is_silent silent e = refl
silent_of_is_silent green e = cc
silent_of_is_silent degraded e = cc
silent_of_is_silent disabled e = cc

-- An operator is paged exactly for an enabled, polled and late source of the first two tiers.
pub should_page_iff :
    (o : Observation)
    → (should_page (evaluate o) ≡ true)
      ↔ ((o.enabled ≡ true) × (o.polled ≡ true) × IsLate o × (pages_tier o.tier ≡ true))
unfolding should_page
should_page_iff o = (
  (λ h.
      let quiet = silent_of_is_silent (evaluate o).health (ground arith) in
      let (on, polled, late) = (evaluate-silent_iff o).0 quiet in
      (
        on,
        polled,
        late,
        rw tier-evaluate at
            (second_conjunct (is_silent (evaluate o).health) (pages_tier (evaluate o).tier) h),
      )),
  λ (on, polled, late, t). rw ((evaluate-silent_iff o).1 (on, polled, late), tier-evaluate) t,
)
