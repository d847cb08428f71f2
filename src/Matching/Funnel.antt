-- ===== src/Matching/Funnel.antt =====
-- The funnel (matching.py: `FunnelResult`, `run_funnel`). `score` is `score_notice` for the profile, the
-- weights and the time of the batch, of which the funnel reads the rounded number.
use bid_pilot.Prelude.{
  ℕ, ◌≤◌, ◌≡◌, refl, sym, Bool, true, false, arith, String, Option, none, some, List, [], ◌∷◌, leb,
  map,
}
use bid_pilot.Canonical.{CanonicalNotice}
use bid_pilot.Matching.Filters.{
  WatchFilters, FilterOutcome, pass, cpv_mismatch, country_excluded, geography_excluded,
  deadline_too_close, amount_out_of_range, procedure_excluded, notice_type_excluded,
  required_keyword_missing, excluded_keyword_present, apply_hard_filters,
}

-- LLM_QUALIFICATION_THRESHOLD
abbrev pub llm_qualification_threshold : ℕ
llm_qualification_threshold = 55

pub record FunnelResult : Type 0 where
  pub notice_external_id : String
  pub outcome : FilterOutcome
  pub score : Option ℕ
  pub llm_eligible : Bool

-- `FunnelResult.passed`
unfoldable pub is_pass : FilterOutcome → Bool
is_pass pass = true
is_pass _ = false

module _ {Amount : Type 0} (below : Amount → Amount → Bool) (normalize : String → String)
    (score : CanonicalNotice Amount → ℕ) where
  -- The body of the loop.
  unfoldable pub funnel_step : ℕ → CanonicalNotice Amount → FilterOutcome → FunnelResult
  funnel_step threshold n pass = record {
    notice_external_id = n.source_ref.external_id;
    outcome = pass;
    score = some (score n);
    llm_eligible = leb threshold (score n);
  }
  funnel_step threshold n outcome = record {
    notice_external_id = n.source_ref.external_id;
    outcome = outcome;
    score = none;
    llm_eligible = false;
  }

  unfoldable pub run_funnel :
      WatchFilters Amount → ℕ → ℕ → List (CanonicalNotice Amount) → List FunnelResult
  run_funnel filters now threshold =
      map (λ n. funnel_step threshold n (apply_hard_filters below normalize n filters now))

  -- What the result for a notice says.
  pub record Explained (filters : WatchFilters Amount) (now threshold : ℕ)
      (n : CanonicalNotice Amount) (r : FunnelResult) : Type 0 where
    pub verdict : r.outcome ≡ apply_hard_filters below normalize n filters now
    pub paid : r.llm_eligible ≡ true → (is_pass r.outcome ≡ true) × (threshold ≤ score n)
    pub scored : is_pass r.outcome ≡ true → r.score ≡ some (score n)
    pub free : is_pass r.outcome ≡ false → (r.score ≡ none) × (r.llm_eligible ≡ false)

  abbrev pub ExplainedEach :
      WatchFilters Amount → ℕ → ℕ → List (CanonicalNotice Amount) → List FunnelResult → Type 0
  ExplainedEach filters now threshold [] [] = Unit {0}
  ExplainedEach filters now threshold (n ∷ ns) (r ∷ rs) =
      Explained filters now threshold n r × ExplainedEach filters now threshold ns rs
  ExplainedEach filters now threshold _ _ = ⊥

  step-Explained :
      (filters : WatchFilters Amount) (now threshold : ℕ) (n : CanonicalNotice Amount)
      (o : FilterOutcome)
      → apply_hard_filters below normalize n filters now ≡ o
      → Explained filters now threshold n (funnel_step threshold n o)
  unfolding funnel_step is_pass
  step-Explained f now threshold n pass e = record {
    verdict = sym e;
    paid = λ h. (refl, ground arith);
    scored = λ h. refl;
    free = λ h. cc;
  }
  step-Explained f now threshold n cpv_mismatch e = record {
    verdict = sym e;
    paid = λ h. cc;
    scored = λ h. cc;
    free = λ h. (refl, refl);
  }
  step-Explained f now threshold n country_excluded e = record {
    verdict = sym e;
    paid = λ h. cc;
    scored = λ h. cc;
    free = λ h. (refl, refl);
  }
  step-Explained f now threshold n geography_excluded e = record {
    verdict = sym e;
    paid = λ h. cc;
    scored = λ h. cc;
    free = λ h. (refl, refl);
  }
  step-Explained f now threshold n deadline_too_close e = record {
    verdict = sym e;
    paid = λ h. cc;
    scored = λ h. cc;
    free = λ h. (refl, refl);
  }
  step-Explained f now threshold n amount_out_of_range e = record {
    verdict = sym e;
    paid = λ h. cc;
    scored = λ h. cc;
    free = λ h. (refl, refl);
  }
  step-Explained f now threshold n procedure_excluded e = record {
    verdict = sym e;
    paid = λ h. cc;
    scored = λ h. cc;
    free = λ h. (refl, refl);
  }
  step-Explained f now threshold n notice_type_excluded e = record {
    verdict = sym e;
    paid = λ h. cc;
    scored = λ h. cc;
    free = λ h. (refl, refl);
  }
  step-Explained f now threshold n required_keyword_missing e = record {
    verdict = sym e;
    paid = λ h. cc;
    scored = λ h. cc;
    free = λ h. (refl, refl);
  }
  step-Explained f now threshold n excluded_keyword_present e = record {
    verdict = sym e;
    paid = λ h. cc;
    scored = λ h. cc;
    free = λ h. (refl, refl);
  }

  -- There is one result per notice, in order. It has the verdict of the hard filters. A notice that
  -- they reject has no score and is not eligible for the paid stage; one that passes has its score, and
  -- an eligible one has passed and scored at least the threshold.
  pub run_funnel-ExplainedEach :
      (filters : WatchFilters Amount) (now threshold : ℕ) (ns : List (CanonicalNotice Amount))
      → ExplainedEach filters now threshold ns (run_funnel filters now threshold ns)
  unfolding run_funnel
  run_funnel-ExplainedEach filters now threshold [] = tt
  run_funnel-ExplainedEach filters now threshold (n ∷ ns) = (
    step-Explained filters now threshold n _ refl,
    run_funnel-ExplainedEach filters now threshold ns,
  )
