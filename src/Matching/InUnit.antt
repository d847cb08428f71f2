-- ===== src/Matching/InUnit.antt =====
-- The factors of a score (matching.py: `score_notice`).
use bid_pilot.Prelude.{
  ℕ, true, String, Option, List, [], ◌∷◌, map, ◌≡◌, ◌⊎◌, inl, inr, refl, Bool-cases, All,
}
use bid_pilot.Scheduler.Text.{ℤ}
use bid_pilot.Canonical.{CanonicalNotice}
use bid_pilot.Dedupe.Similar.{Floats}
use bid_pilot.Matching.Score.{
  CompanyProfile, ScoreFactor, at_most_one, at_least_zero, factor, score_notice, specs,
  weights_or_default,
}

module _ {F : Type 0} (f : Floats F) where
  -- 0, 1, or what the comparisons say lies between
  abbrev pub InUnit : F → Type 0
  InUnit x =
      (x ≡ f.ratio 0 1)
      ⊎ (x ≡ f.ratio 1 1)
      ⊎ (f.lt (f.ratio 0 1) x ≡ true) × (f.lt x (f.ratio 1 1) ≡ true)

  abbrev pub IsFactor : ScoreFactor F → Type 0
  IsFactor x = InUnit x.value × (x.points ≡ f.mul (f.mul x.value x.weight) (f.ratio 100 1))

  at_least_zero-InUnit :
      (x : F) → (x ≡ f.ratio 1 1) ⊎ (f.lt x (f.ratio 1 1) ≡ true) → InUnit (at_least_zero f x)
  at_least_zero-InUnit x bound = elim (Bool-cases (f.lt (f.ratio 0 1) x)) [
    | inl above ↦
        rw above (elim bound [ inl one ↦ inr (inl one) | inr below ↦ inr (inr (above, below)) ])
    | inr low ↦ rw low (inl refl)
  ]

  at_most_one-bound :
      (x : F) → (at_most_one f x ≡ f.ratio 1 1) ⊎ (f.lt (at_most_one f x) (f.ratio 1 1) ≡ true)
  at_most_one-bound x = elim (Bool-cases (f.lt x (f.ratio 1 1))) [
    | inl below ↦ rw below (inr below)
    | inr high ↦ rw high (inl refl)
  ]

  factor-IsFactor :
      (weights : List (String × F)) → (spec : String × F) → IsFactor (factor f weights spec)
  unfolding factor
  factor-IsFactor weights (key, value) =
      (at_least_zero-InUnit (at_most_one f value) (at_most_one-bound value), refl)

  factors-IsFactor :
      (weights : List (String × F))
      → (ss : List (String × F)) → All IsFactor (map (factor f weights) ss)
  factors-IsFactor weights [] = tt
  factors-IsFactor weights (s ∷ ss) = (factor-IsFactor weights s, factors-IsFactor weights ss)

  -- The factors of a score are the six of the specs, in that order. The value of each is 0, is 1, or lies
  -- between 0 and 1 by the comparison of floating-point numbers, whatever the fits and the weights are, and its
  -- points are the value times the weight times 100. The score is the rounded sum of the points.
  pub score_notice-IsFactor :
      (rounded : F → ℤ)
      → (normalize : String → String) → (embedding : Option (List F))
      → (weights : Option (List (String × F))) → (now : ℕ) → (n : CanonicalNotice F)
      → (p : CompanyProfile F)
      → let score = score_notice f rounded normalize embedding weights now n p in
        All IsFactor score.factors
        × (map (λ x. x.key) score.factors
            ≡ "activity_fit" ∷ "geographic_fit" ∷ "size_fit" ∷ "certification_fit"
              ∷ "buyer_familiarity" ∷ "deadline_comfort" ∷ [])
        × (score.score ≡ rounded (f.sum (map (λ x. x.points) score.factors)))
  unfolding score_notice specs factor
  score_notice-IsFactor rounded normalize embedding weights now n p = (
    factors-IsFactor (weights_or_default f weights) (specs f normalize embedding n p now),
    refl,
    refl,
  )
