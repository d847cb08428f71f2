-- ===== src/Matching/Score.antt =====
-- The score of a notice (matching.py: `CompanyProfile`, the six fits, `score_notice`). The details and
-- labels, which are texts for the reader, are left out. Floating-point numbers, among them amounts, and their
-- operations, `round` and `normalize_text` are arguments, and so is the embedding of the notice.
use bid_pilot.Prelude.{
  ℕ, ◌-◌, ◌==◌, ◌&&◌, ◌||◌, not, Bool, String, Option, none, some, List, [], ◌∷◌, ◌++◌, map, elem,
  select, length, leb, max, str_eq, if◌then◌else◌,
}
use bid_pilot.Scheduler.Text.{ℤ, codes}
use bid_pilot.Store.{second}
use bid_pilot.Canonical.{CanonicalNotice, siren_effective, is_text}
use bid_pilot.Matching.Filters.{
  all_cpv, all_places, haystack, cpv_matches, nuts_matches, contains, is_empty,
}
use bid_pilot.Dedupe.Similar.{Floats, cosine_similarity}

pub record CompanyProfile (F : Type 0) : Type 0 where
  pub org_id : String
  pub cpv_families : List String
  pub zones_nuts : List String
  pub national : Bool
  pub keywords : List String
  pub negative_keywords : List String
  pub annual_revenue : Option F
  pub certifications : List String
  pub capability_embedding : Option (List F)
  pub known_buyer_sirens : List String

-- KNOWN_CERTIFICATIONS
abbrev pub known_certifications : List String
known_certifications =
    "Qualiopi" ∷ "ISO 9001" ∷ "ISO 14001" ∷ "ISO 27001" ∷ "MASE" ∷ "Qualibat" ∷ "Qualifelec" ∷ "RGE"
    ∷ "HDS" ∷ "SecNumCloud" ∷ []

pub data Warning : Type 0 where
  amount_above_half_of_revenue : Warning
  missing_certifications : List String → Warning

pub record ScoreFactor (F : Type 0) : Type 0 where
  pub key : String
  pub value : F
  pub weight : F
  pub points : F

pub record MatchScore (F : Type 0) : Type 0 where
  pub score : ℤ
  pub factors : List (ScoreFactor F)
  pub warnings : List Warning

module _ {F : Type 0} (f : Floats F) where
  -- Python's `min(1.0, x)` and `max(0.0, x)`
  abbrev pub at_most_one : F → F
  at_most_one x = if f.lt x (f.ratio 1 1) then x else f.ratio 1 1

  abbrev pub at_least_zero : F → F
  at_least_zero x = if f.lt (f.ratio 0 1) x then x else f.ratio 0 1

  -- DEFAULT_WEIGHTS
  unfoldable pub default_weights : List (String × F)
  default_weights =
      ("activity_fit", f.ratio 35 100)
      ∷ ("geographic_fit", f.ratio 20 100)
      ∷ ("size_fit", f.ratio 15 100)
      ∷ ("certification_fit", f.ratio 10 100)
      ∷ ("buyer_familiarity", f.ratio 5 100)
      ∷ ("deadline_comfort", f.ratio 15 100)
      ∷ []

  -- `weights.get(key, 0.0)`
  unfoldable pub weight_of : List (String × F) → String → F
  weight_of [] key = f.ratio 0 1
  weight_of ((k, w) ∷ ws) key = let rest = weight_of ws key in if str_eq k key then w else rest

  unfoldable pub keyword_hits : (String → String) → CanonicalNotice F → List String → List String
  unfolding contains
  keyword_hits normalize n words =
      select
        (λ w. not (is_empty (codes w)) && contains (haystack normalize n) (codes (normalize w)))
        words

  -- A quotient of two counts, or 0.0 of nothing.
  unfoldable pub share : ℕ → ℕ → F
  share hits all = if all == 0 then f.ratio 0 1 else f.ratio hits all

  unfoldable pub keyword_share : List String → ℕ → F
  keyword_share [] hits = f.ratio 0 1
  keyword_share (w ∷ ws) hits = at_most_one (f.ratio hits 3)

  unfoldable pub overlap_fit : (String → String) → CanonicalNotice F → CompanyProfile F → F
  unfolding share keyword_share keyword_hits cpv_matches
  overlap_fit normalize n p =
      let cpv_share =
        share (length (select (λ c. cpv_matches c p.cpv_families) (all_cpv n)))
          (length (all_cpv n)) in
      let keywords = keyword_share p.keywords (length (keyword_hits normalize n p.keywords)) in
      if is_empty (all_cpv n) && is_empty p.keywords
      then f.ratio 0 1
      else if f.lt cpv_share keywords
      then keywords
      else cpv_share

  -- The embedding of the company decides unless it is missing, empty, or its cosine is 0.0.
  unfoldable pub activity_fit :
      (String → String) → Option (List F) → CanonicalNotice F → CompanyProfile F → F
  unfolding overlap_fit cosine_similarity
  activity_fit normalize embedding n p = elim p.capability_embedding [
    | some (x ∷ xs) ↦
        (let cosine = cosine_similarity f (x ∷ xs) (elim embedding [ none ↦ [] | some ys ↦ ys ]) in
          if f.equal cosine (f.ratio 0 1)
          then overlap_fit normalize n p
          else f.div (f.add cosine (f.ratio 1 1)) (f.ratio 2 1))
    | _ ↦ overlap_fit normalize n p
  ]

  -- The length of the longest text.
  unfoldable pub longest : List String → ℕ
  longest [] = 0
  longest (s ∷ ss) = max (length (codes s)) (longest ss)

  unfoldable pub geographic_fit : CanonicalNotice F → CompanyProfile F → F
  unfolding longest nuts_matches
  geographic_fit n p =
      let hits = select (λ place. nuts_matches place p.zones_nuts) (all_places n) in
      if p.national
      then f.ratio 1 1
      else if is_empty (all_places n) || is_empty p.zones_nuts
      then f.ratio 5 10
      else if is_empty hits
      then f.ratio 0 1
      else at_most_one (
          f.add (f.ratio 7 10)
            (f.mul (f.ratio 1 10) (f.sub (f.ratio (longest hits) 1) (f.ratio 2 1))))

  -- The warning comes with a ratio above REVENUE_RATIO_WARNING.
  unfoldable pub size_of_ratio : F → F × List Warning
  size_of_ratio ratio =
      if f.lt (f.ratio 5 10) ratio
      then (at_least_zero (f.sub (f.ratio 1 1) ratio), amount_above_half_of_revenue ∷ [])
      else (at_most_one (f.add (f.ratio 5 10) ratio), [])

  unfoldable pub size_fit : Option F → Option F → F × List Warning
  unfolding size_of_ratio
  size_fit (some amount) (some revenue) =
      if f.equal revenue (f.ratio 0 1)
      then (f.ratio 5 10, [])
      else size_of_ratio (f.div amount revenue)
  size_fit _ _ = (f.ratio 5 10, [])

  unfoldable pub demanded : (String → String) → CanonicalNotice F → List String
  unfolding contains
  demanded normalize n =
      select (λ name. contains (haystack normalize n) (codes (normalize name))) known_certifications

  -- The certifications that the notice names and the company does not hold.
  unfoldable pub missing : (String → String) → CanonicalNotice F → CompanyProfile F → List String
  unfolding demanded
  missing normalize n p =
      select (λ name. not (elem (normalize name) (map normalize p.certifications)))
        (demanded normalize n)

  unfoldable pub certification_fit : List String → F × List Warning
  certification_fit [] = (f.ratio 1 1, [])
  certification_fit (name ∷ names) = (f.ratio 0 1, missing_certifications (name ∷ names) ∷ [])

  unfoldable pub buyer_familiarity : CanonicalNotice F → CompanyProfile F → F
  unfolding siren_effective
  buyer_familiarity n p = elim (siren_effective n.buyer) [
    | none ↦ f.ratio 0 1
    | some siren ↦
        if is_text (some siren) && elem siren p.known_buyer_sirens then f.ratio 1 1 else f.ratio 0 1
  ]

  unfoldable pub deadline_comfort : Option ℕ → ℕ → F
  deadline_comfort none now = f.ratio 5 10
  deadline_comfort (some deadline) now =
      if leb deadline now
      then f.ratio 0 1
      else at_most_one
          (f.div (f.div (f.ratio (deadline - now) second) (f.ratio 86400 1)) (f.ratio 30 1))

  -- A factor of the loop over the specs.
  unfoldable pub factor : List (String × F) → String × F → ScoreFactor F
  unfolding weight_of
  factor weights (key, value) =
      let clamped = at_least_zero (at_most_one value) in
      record {
        key = key;
        value = clamped;
        weight = weight_of weights key;
        points = f.mul (f.mul clamped (weight_of weights key)) (f.ratio 100 1);
      }

  -- `weights or DEFAULT_WEIGHTS`
  unfoldable pub weights_or_default : Option (List (String × F)) → List (String × F)
  unfolding default_weights
  weights_or_default (some (w ∷ ws)) = w ∷ ws
  weights_or_default _ = default_weights

  unfoldable pub specs :
      (String → String)
      → Option (List F)
      → CanonicalNotice F
      → CompanyProfile F
      → ℕ
      → List (String × F)
  unfolding activity_fit geographic_fit size_fit certification_fit missing buyer_familiarity
      deadline_comfort
  specs normalize embedding n p now =
      ("activity_fit", activity_fit normalize embedding n p)
      ∷ ("geographic_fit", geographic_fit n p)
      ∷ ("size_fit", (size_fit n.amounts.estimated_total p.annual_revenue).0)
      ∷ ("certification_fit", (certification_fit (missing normalize n p)).0)
      ∷ ("buyer_familiarity", buyer_familiarity n p)
      ∷ ("deadline_comfort", deadline_comfort n.dates.deadline_at now)
      ∷ []

  unfoldable pub score_notice :
      (F → ℤ)
      → (String → String)
      → Option (List F)
      → Option (List (String × F))
      → ℕ
      → CanonicalNotice F
      → CompanyProfile F
      → MatchScore F
  unfolding factor weights_or_default specs size_fit certification_fit missing
  score_notice rounded normalize embedding weights now n p =
      let factors = map (factor (weights_or_default weights)) (specs normalize embedding n p now) in
      record {
        score = rounded (f.sum (map (λ x. x.points) factors));
        factors = factors;
        warnings =
            (size_fit n.amounts.estimated_total p.annual_revenue).1
            ++ (certification_fit (missing normalize n p)).1;
      }
