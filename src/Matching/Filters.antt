-- ===== src/Matching/Filters.antt =====
-- The hard filters (matching.py: `WatchFilters`, `FilterOutcome`, `cpv_matches`, `nuts_matches`,
-- `apply_hard_filters`). `Amount` with `below`, its order, is the type of amounts, which the source has as
-- floating-point numbers, and `normalize` is `normalize_text`, which rests on Unicode tables.
use bid_pilot.Prelude.{
  ℕ, ◌+◌, ◌*◌, Bool, true, false, ◌&&◌, ◌||◌, not, String, Option, none, some, List, [], ◌∷◌, ◌++◌,
  ltb, ◌==◌, any, elem, if◌then◌else◌, or_else,
}
use Prim.Native.String.{◌++◌ as cat}
use bid_pilot.Store.{day}
use bid_pilot.Scheduler.Text.{codes}
use bid_pilot.Canonical.{NoticeType, same_type, Lot, CanonicalNotice}

-- A minimum of days is not negative.
pub record WatchFilters (Amount : Type 0) : Type 0 where
  pub cpv_families : List String
  pub countries : List String
  pub nuts : List String
  pub min_days_to_deadline : Option ℕ
  pub amount_min : Option Amount
  pub amount_max : Option Amount
  pub procedure_types : List String
  pub notice_types : List NoticeType
  pub keywords_include : List String
  pub keywords_exclude : List String

pub data FilterOutcome : Type 0 where
  pass cpv_mismatch country_excluded geography_excluded deadline_too_close : FilterOutcome
  amount_out_of_range procedure_excluded notice_type_excluded : FilterOutcome
  required_keyword_missing excluded_keyword_present : FilterOutcome

-- `code.startswith(prefix)`, on code points
unfoldable pub starts_with : List ℕ → List ℕ → Bool
starts_with cs [] = true
starts_with [] (p ∷ ps) = false
starts_with (c ∷ cs) (p ∷ ps) = p == c && starts_with cs ps

-- `part in text`
unfoldable pub contains : List ℕ → List ℕ → Bool
unfolding starts_with
contains [] part = starts_with [] part
contains (c ∷ cs) part = starts_with (c ∷ cs) part || contains cs part

-- `text.rstrip("*")`
unfoldable pub without_stars : List ℕ → List ℕ
without_stars [] = []
without_stars (c ∷ cs) = elim (without_stars cs) [
  | [] ↦ if c == 42 then [] else c ∷ []
  | d ∷ ds ↦ c ∷ d ∷ ds
]

abbrev pub is_empty : {A : Type 0} → List A → Bool
is_empty [] = true
is_empty (x ∷ xs) = false

unfoldable pub cpv_matches : String → List String → Bool
unfolding starts_with without_stars
cpv_matches code = any (λ family.
    not (is_empty (codes family)) && starts_with (codes code) (without_stars (codes family)))

unfoldable pub nuts_matches : String → List String → Bool
unfolding starts_with
nuts_matches code = any (λ zone.
    not (is_empty (codes zone))
    && (starts_with (codes code) (codes zone) || starts_with (codes zone) (codes code)))

-- `[*values, *(v for lot in lots for v in …)]`
unfoldable pub with_lots :
    {Amount : Type 0} → List String → (Lot Amount → List String) → List (Lot Amount) → List String
with_lots values of [] = values
with_lots values of (lot ∷ lots) = with_lots (values ++ of lot) of lots

-- `deadline - now < timedelta(days)`, when both are given
unfoldable pub is_too_close : Option ℕ → Option ℕ → ℕ → Bool
is_too_close (some days) (some deadline) now = ltb deadline (now + days * day)
is_too_close _ _ now = false

-- `procedure is not None and str(procedure) in types`
unfoldable pub is_procedure : Option String → List String → Bool
is_procedure none types = false
is_procedure (some procedure) types = elem procedure types

-- `any(normalize_text(word) in text for word in words if word)`
unfoldable pub names_any : (String → String) → List String → List ℕ → Bool
unfolding contains
names_any normalize words text =
    any (λ word. not (is_empty (codes word)) && contains text (codes (normalize word))) words

module _ {Amount : Type 0} where
  -- Outside of the bounds, of which either may be missing.
  unfoldable pub is_out_of_range :
      (Amount → Amount → Bool) → Option Amount → Option Amount → Option Amount → Bool
  is_out_of_range below least most none = false
  is_out_of_range below none none (some amount) = false
  is_out_of_range below (some low) none (some amount) = below amount low
  is_out_of_range below none (some high) (some amount) = below high amount
  is_out_of_range below (some low) (some high) (some amount) = below amount low || below high amount

  abbrev pub haystack : (String → String) → CanonicalNotice Amount → List ℕ
  haystack normalize n = codes (normalize (cat n.title (cat " " (or_else n.description ""))))

  abbrev pub all_cpv : CanonicalNotice Amount → List String
  all_cpv n = with_lots n.cpv (λ lot. lot.cpv) n.lots

  abbrev pub all_places : CanonicalNotice Amount → List String
  all_places n = with_lots n.nuts (λ lot. lot.place_nuts) n.lots

module _ {Amount : Type 0} (below : Amount → Amount → Bool) (normalize : String → String) where
  unfoldable pub apply_hard_filters :
      CanonicalNotice Amount → WatchFilters Amount → ℕ → FilterOutcome
  apply_hard_filters n f now =
      if not (is_empty f.notice_types) && not (any (same_type n.notice_type) f.notice_types)
      then notice_type_excluded
      else if not (is_empty f.countries) && not (elem n.country f.countries)
      then country_excluded
      else if not (is_empty f.cpv_families)
          && not (any (λ code. cpv_matches code f.cpv_families) (all_cpv n))
      then cpv_mismatch
      else if not (is_empty f.nuts)
          && not (is_empty (all_places n))
          && not (any (λ place. nuts_matches place f.nuts) (all_places n))
      then geography_excluded
      else if is_too_close f.min_days_to_deadline n.dates.deadline_at now
      then deadline_too_close
      else if is_out_of_range below f.amount_min f.amount_max n.amounts.estimated_total
      then amount_out_of_range
      else if not (is_empty f.procedure_types)
          && not (is_procedure n.procedure.type f.procedure_types)
      then procedure_excluded
      else if not (is_empty f.keywords_exclude)
          && names_any normalize f.keywords_exclude (haystack normalize n)
      then excluded_keyword_present
      else if not (is_empty f.keywords_include)
          && not (names_any normalize f.keywords_include (haystack normalize n))
      then required_keyword_missing
      else pass
