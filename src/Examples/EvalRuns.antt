-- ===== src/Examples/EvalRuns.antt =====
-- Runs of the evaluation harness.
use bid_pilot.Prelude.{
  ℕ, ◌≡◌, refl, String, List, [], ◌∷◌, All, get_elem?, if◌then◌else◌, str_eq, true, false,
}
use bid_pilot.Examples.DedupeRuns.{thousandths}
use bid_pilot.Evals.Match.{
  Requirement, match_requirements, scored_row, scored_from, insert_descending, sort_descending,
  pick, unused,
}
use bid_pilot.Evals.Picked.{IsMatching}
use bid_pilot.Evals.Matched.{are_alike, match_requirements-IsMatching}
use bid_pilot.Scheduler.Cron.{range_from}

-- 1 for the same text, 0.7 for any other text but "prix"
abbrev closeness : String → String → ℕ
closeness a b = if str_eq a b then 1000 else if str_eq b "prix" then 0 else 700

abbrev predictions : List Requirement
predictions =
    record { text = "assurance" } ∷ record { text = "visite" } ∷ record { text = "caution" } ∷ []

abbrev golds : List Requirement
golds = record { text = "visite" } ∷ record { text = "attestation" } ∷ record { text = "prix" } ∷ []

-- The equal texts are paired first, then the last of the other predictions.
paired :
    match_requirements thousandths closeness predictions golds
    ≡ record { pairs = (1, 0) ∷ (2, 1) ∷ []; unmatched_predicted = 0 ∷ []; unmatched_gold = 2 ∷ [] }
unfolding match_requirements scored_row scored_from insert_descending sort_descending pick unused
    range_from
paired = refl

match_requirements-IsMatching_example :
    let m = match_requirements thousandths closeness predictions golds in
    IsMatching m.pairs
    × All
        (λ r.
          are_alike thousandths closeness (get_elem? predictions r.0) (get_elem? golds r.1) ≡ true)
        m.pairs
    × All
        (λ k.
          All
            (λ l.
              are_alike thousandths closeness (get_elem? predictions k) (get_elem? golds l) ≡ false)
            m.unmatched_gold)
        m.unmatched_predicted
match_requirements-IsMatching_example =
    match_requirements-IsMatching thousandths closeness predictions golds
