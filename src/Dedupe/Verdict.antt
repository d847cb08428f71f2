-- ===== src/Dedupe/Verdict.antt =====
-- Whether two notices are the same tender (dedupe.py: `MatchReason`, `MatchVerdict`, `buyer_key`,
-- `external_ids`, `cross_references`, `same_tender`). A verdict is without its `details`, which no code
-- reads.
use Prim.Native.String.{◌++◌ as cat}
use bid_pilot.Prelude.{
  ℕ, ◌-◌, ◌*◌, Bool, true, false, not, ◌&&◌, ◌||◌, String, Option, none, some, List, ◌∷◌, map, any,
  elem, leb, length, select, str_eq, if◌then◌else◌,
}
use bid_pilot.Store.{second}
use bid_pilot.Scheduler.Text.{codes}
use bid_pilot.Canonical.{CanonicalNotice, SourceRef, same_type, source_refs, siren_effective}
use bid_pilot.Canonical.Clean.{Text, is_in, same_text}
use bid_pilot.Dedupe.Names.{Unicode, normalize_buyer_name}
use bid_pilot.Dedupe.Similar.{Floats, trigram_similarity, cosine_similarity}

pub data MatchReason : Type 0 where
  cross_reference buyer_deadline_title embedding : MatchReason

-- `apart` is a verdict that is not matched.
pub data MatchVerdict (F : Type 0) : Type 0 where
  apart : MatchVerdict F
  matched : MatchReason → F → MatchVerdict F

abbrev pub is_matched : {F : Type 0} → MatchVerdict F → Bool
is_matched apart = false
is_matched (matched reason confidence) = true

-- `f"{ref.source}:{ref.external_id}"`
abbrev pub ref_key : SourceRef → String
ref_key ref = cat ref.source (cat ":" ref.external_id)

-- `abs(left - right) <= tolerance`, when both are given
unfoldable pub within : ℕ → Option ℕ → Option ℕ → Bool
within tolerance (some left) (some right) =
    leb (left - right) tolerance && leb (right - left) tolerance
within tolerance _ _ = false

-- The key of a buyer, without its prefix.
pub data BuyerKey : Type 0 where
  siren name : Text → BuyerKey

unfoldable pub same_key : Option BuyerKey → Option BuyerKey → Bool
unfolding same_text
same_key (some (siren a)) (some (siren b)) = same_text a b
same_key (some (name a)) (some (name b)) = same_text a b
same_key _ _ = false

unfoldable pub name_key : Option Text → Option BuyerKey
name_key (some (c ∷ cs)) = some (name (c ∷ cs))
name_key _ = none

abbrev pub codes_of : Option String → Option Text
codes_of none = none
codes_of (some s) = some (codes s)

module _ {Amount : Type 0} where
  abbrev pub external_ids : CanonicalNotice Amount → List String
  external_ids n = map ref_key (source_refs n)

  -- A siren that is empty does not count.
  unfoldable pub buyer_key : Unicode → CanonicalNotice Amount → Option BuyerKey
  unfolding name_key siren_effective
  buyer_key u n = elim (codes_of (siren_effective n.buyer)) [
    | some (c ∷ cs) ↦ some (siren (c ∷ cs))
    | _ ↦ name_key (normalize_buyer_name u (codes_of n.buyer.name))
  ]

  unfoldable pub cross_references : Unicode → CanonicalNotice Amount → List Text
  cross_references u n =
      map (λ ref. u.upper (u.strip (codes ref.external_id)))
        (select (λ ref. leb 6 (length (u.strip (codes ref.external_id)))) (source_refs n))

  abbrev pub shares_publication : CanonicalNotice Amount → CanonicalNotice Amount → Bool
  shares_publication l r = any (λ key. elem key (external_ids r)) (external_ids l)

  abbrev pub shares_reference : Unicode → CanonicalNotice Amount → CanonicalNotice Amount → Bool
  shares_reference u l r = any (is_in (cross_references u r)) (cross_references u l)

  abbrev pub same_buyer_and_deadline :
      Unicode → CanonicalNotice Amount → CanonicalNotice Amount → Bool
  same_buyer_and_deadline u l r =
      same_key (buyer_key u l) (buyer_key u r)
      && within (3600 * second) l.dates.deadline_at r.dates.deadline_at

-- `round(min(1.0, 0.6 + 0.4 * (title_score - 0.6) / 0.4), 3)`
unfoldable pub title_confidence : {F : Type 0} → Floats F → F → F
title_confidence f score =
    let raised =
      f.add (f.ratio 6 10)
        (f.div (f.mul (f.ratio 4 10) (f.sub score (f.ratio 6 10))) (f.ratio 4 10)) in
    f.round3 (if f.lt raised (f.ratio 1 1) then raised else f.ratio 1 1)

module _ {Amount F : Type 0} (u : Unicode) (f : Floats F) where
  abbrev pub title_score : CanonicalNotice Amount → CanonicalNotice Amount → F
  title_score l r = trigram_similarity f u (codes l.title) (codes r.title)

  -- The fallback: an embedding that is missing or empty decides nothing.
  unfoldable pub embedding_verdict :
      Option (List F)
      → Option (List F)
      → CanonicalNotice Amount
      → CanonicalNotice Amount
      → MatchVerdict F
  unfolding cosine_similarity within
  embedding_verdict (some (x ∷ xs)) (some (y ∷ ys)) l r =
      let score = cosine_similarity f (x ∷ xs) (y ∷ ys) in
      if str_eq l.country r.country
        && f.le (f.ratio 92 100) score
        && within (86400 * second) l.dates.deadline_at r.dates.deadline_at
      then matched embedding (f.round3 score)
      else apart
  embedding_verdict _ _ l r = apart

  unfoldable pub same_tender :
      Option (List F)
      → Option (List F)
      → CanonicalNotice Amount
      → CanonicalNotice Amount
      → MatchVerdict F
  unfolding embedding_verdict title_confidence
  same_tender left_embedding right_embedding l r =
      if not (same_type l.notice_type r.notice_type)
      then apart
      else if shares_publication l r || shares_reference u l r
      then matched cross_reference (f.ratio 1 1)
      else if same_buyer_and_deadline u l r && f.le (f.ratio 6 10) (title_score l r)
      then matched buyer_deadline_title (title_confidence f (title_score l r))
      else embedding_verdict left_embedding right_embedding l r
