-- ===== src/Examples/MatchingRuns.antt =====
-- Runs of the matching.
use bid_pilot.Prelude.{
  ℕ, ◌*◌, ◌≡◌, ◌↔◌, refl, String, false, map, All, ◌/◌, none, some, [], ◌∷◌, ltb,
}
use bid_pilot.Store.{day}
use bid_pilot.Examples.Notices.{notice_of_boamp, lot}
use bid_pilot.Canonical.{CanonicalNotice, competition, same_type, siren_effective}
use bid_pilot.Scheduler.Text.{ℤ, pos}
use bid_pilot.Matching.Filters.{
  WatchFilters, pass, cpv_mismatch, geography_excluded, apply_hard_filters, cpv_matches,
  nuts_matches, starts_with, contains, without_stars, with_lots, is_too_close, is_procedure,
  is_out_of_range, names_any,
}
use bid_pilot.Matching.Accepted.{Accepted, apply_hard_filters-pass_iff}
use bid_pilot.Matching.Score.{
  CompanyProfile, score_notice, factor, specs, weights_or_default, default_weights, weight_of,
  activity_fit, overlap_fit, keyword_hits, keyword_share, share, geographic_fit, longest, size_fit,
  size_of_ratio, certification_fit, missing, demanded, buyer_familiarity, deadline_comfort,
}
use bid_pilot.Matching.InUnit.{IsFactor, score_notice-IsFactor}
use bid_pilot.Examples.DedupeRuns.{thousandths, sum_from}
use bid_pilot.Matching.Funnel.{
  run_funnel, ExplainedEach, run_funnel-ExplainedEach, llm_qualification_threshold, funnel_step,
}

program : Unit {0}
unfolding apply_hard_filters cpv_matches nuts_matches starts_with contains without_stars same_type
    with_lots is_too_close is_procedure is_out_of_range names_any sum_from score_notice factor specs
    weights_or_default default_weights weight_of activity_fit overlap_fit keyword_hits keyword_share
    share geographic_fit longest size_fit size_of_ratio certification_fit missing demanded
    buyer_familiarity deadline_comfort siren_effective run_funnel funnel_step
program = tt

abbrev same : String → String
same s = s

abbrev notice : CanonicalNotice ℕ
notice = record notice_of_boamp {
  description = none;
  nuts = "FR101" ∷ [];
  lots = lot ∷ [];
  amounts = record { estimated_total = some 40000; currency = some "EUR"; vat = none };
}

abbrev watch : WatchFilters ℕ
watch = record {
  cpv_families = "72*" ∷ [];
  countries = "FR" ∷ "BE" ∷ [];
  nuts = "FR1" ∷ [];
  min_days_to_deadline = some 5;
  amount_min = some 1000;
  amount_max = some 50000;
  procedure_types = "open" ∷ [];
  notice_types = competition ∷ [];
  keywords_include = "parc" ∷ [];
  keywords_exclude = "travaux" ∷ [];
}

filtered :
    (apply_hard_filters ltb same notice watch (65 * day) ≡ pass)
    × (apply_hard_filters ltb same notice (record watch { cpv_families = "45" ∷ [] }) (65 * day)
        ≡ cpv_mismatch)
    × (apply_hard_filters ltb same notice (record watch { nuts = "FRK" ∷ [] }) (65 * day)
        ≡ geography_excluded)
unfolding program
filtered = (refl, refl, refl)

apply_hard_filters-pass_iff_example :
    (apply_hard_filters ltb same notice watch (65 * day) ≡ pass)
    ↔ Accepted ltb same notice watch (65 * day)
apply_hard_filters-pass_iff_example = apply_hard_filters-pass_iff ltb same notice watch (65 * day)

abbrev sixty : CanonicalNotice ℕ → ℕ
sixty n = 60

run_funnel-ExplainedEach_example :
    ExplainedEach ltb same sixty watch
      (65 * day)
      llm_qualification_threshold
      (notice ∷ [])
      (run_funnel ltb same sixty watch (65 * day) llm_qualification_threshold (notice ∷ []))
run_funnel-ExplainedEach_example =
    run_funnel-ExplainedEach ltb same sixty watch (65 * day) llm_qualification_threshold
      (notice ∷ [])

abbrev company : CompanyProfile ℕ
company = record {
  org_id = "org";
  cpv_families = "72*" ∷ [];
  zones_nuts = "FR1" ∷ [];
  national = false;
  keywords = "parc" ∷ [];
  negative_keywords = [];
  annual_revenue = some 50000;
  certifications = [];
  capability_embedding = none;
  known_buyer_sirens = [];
}

abbrev to_percent : ℕ → ℤ
to_percent x = pos (x / 1000)

scored :
    (score_notice thousandths to_percent same none none (65 * day) notice company).score ≡ pos 52
unfolding program
scored = refl

score_notice-IsFactor_example :
    let score = score_notice thousandths to_percent same none none (65 * day) notice company in
    All (IsFactor thousandths) score.factors
    × (map (λ x. x.key) score.factors
        ≡ "activity_fit" ∷ "geographic_fit" ∷ "size_fit" ∷ "certification_fit" ∷ "buyer_familiarity"
          ∷ "deadline_comfort" ∷ [])
    × (score.score ≡ to_percent (thousandths.sum (map (λ x. x.points) score.factors)))
score_notice-IsFactor_example =
    score_notice-IsFactor thousandths to_percent same none none (65 * day) notice company
