-- ===== src/Dedupe/Merge.antt =====
-- The merge of two notices (dedupe.py: `merge`). Optional texts that the code reads for their truth are
-- compared as such: an empty text counts as a missing one.
use bid_pilot.Prelude.{
  ℕ, Bool, not, ◌&&◌, String, Option, none, some, List, [], ◌∷◌, ◌++◌, elem, ltb, length, select,
  if◌then◌else◌, or_else,
}
use bid_pilot.Scheduler.Text.{codes}
use bid_pilot.Canonical.{
  CanonicalNotice, SourceRef, Buyer, Lot, Amounts, Visit, Dates, DocumentRef, Urls, source_refs,
  is_text, or_text,
}
use bid_pilot.Dedupe.Verdict.{external_ids, ref_key}

-- `list(dict.fromkeys(values))`
unfoldable pub unique_from : List String → List String → List String
unique_from out [] = out
unique_from out (s ∷ ss) =
    let kept = unique_from (out ++ s ∷ []) ss in
    let known = unique_from out ss in if elem s out then known else kept

unfoldable pub unique : List String → List String
unfolding unique_from
unique values = unique_from [] values

-- The value that stands, or the incoming one where it is missing.
abbrev pub filled : {A : Type 0} → Option A → Option A → Option A
filled (some a) b = some a
filled none b = b

abbrev pub text_length : String → ℕ
text_length s = length (codes s)

unfoldable pub longer_title : String → String → String
longer_title mine theirs = if ltb (text_length mine) (text_length theirs) then theirs else mine

unfoldable pub longer_description : Option String → Option String → Option String
longer_description mine theirs =
    if ltb (text_length (or_else mine "")) (text_length (or_else theirs "")) then theirs else mine

unfoldable pub earliest : Option ℕ → Option ℕ → Option ℕ
earliest mine none = mine
earliest none (some t) = some t
earliest (some m) (some t) = if ltb t m then some t else some m

unfoldable pub merge_visit : Visit → Visit → Visit
merge_visit mine theirs = elim mine.mandatory [
  | some b ↦ mine
  | none ↦ elim theirs.mandatory [ some b ↦ theirs | none ↦ mine ]
]

unfoldable pub merge_dates : Dates → Dates → Dates
unfolding earliest merge_visit
merge_dates mine theirs = record {
  published_at = earliest mine.published_at theirs.published_at;
  deadline_at = filled mine.deadline_at theirs.deadline_at;
  questions_deadline_at = filled mine.questions_deadline_at theirs.questions_deadline_at;
  visit = merge_visit mine.visit theirs.visit;
  tz = filled mine.tz theirs.tz;
}

-- `if mine is None and theirs`
unfoldable pub filled_by_text : Option String → Option String → Option String
filled_by_text (some s) theirs = some s
filled_by_text none theirs = if is_text theirs then theirs else none

-- `if not mine and theirs`
unfoldable pub named : Option String → Option String → Option String
named mine theirs = if not (is_text mine) && is_text theirs then theirs else mine

unfoldable pub merge_buyer : Buyer → Buyer → Buyer
unfolding filled_by_text named
merge_buyer mine theirs = record mine {
  siren = filled_by_text mine.siren theirs.siren;
  siret = filled_by_text mine.siret theirs.siret;
  name = named mine.name theirs.name;
}

unfoldable pub merge_urls : Urls → Urls → Urls
unfolding or_text
merge_urls mine theirs = record {
  notice = or_text mine.notice theirs.notice;
  documents = or_text mine.documents theirs.documents;
  submission = or_text mine.submission theirs.submission;
}

abbrev pub url_of : DocumentRef → List String
url_of d = elim d.url [ none ↦ [] | some s ↦ s ∷ [] ]

-- `{doc.url for doc in documents if doc.url}`
unfoldable pub urls_of : List DocumentRef → List String
urls_of [] = []
urls_of (d ∷ ds) = let rest = urls_of ds in if is_text d.url then url_of d ++ rest else rest

unfoldable pub is_new_document : List String → DocumentRef → Bool
is_new_document known d = is_text d.url && not (elem (or_else d.url "") known)

unfoldable pub merge_documents : List DocumentRef → List DocumentRef → List DocumentRef
unfolding urls_of is_new_document
merge_documents mine theirs = mine ++ select (is_new_document (urls_of mine)) theirs

module _ {Amount : Type 0} where
  unfoldable pub merge_amounts : Amounts Amount → Amounts Amount → Amounts Amount
  unfolding or_text
  merge_amounts mine theirs = elim mine.estimated_total [
    | some a ↦ mine
    | none ↦ record mine {
      estimated_total = theirs.estimated_total;
      currency = or_text mine.currency theirs.currency;
    }
  ]

  unfoldable pub merge_lots : List (Lot Amount) → List (Lot Amount) → List (Lot Amount)
  merge_lots [] theirs = theirs
  merge_lots (lot ∷ lots) theirs = lot ∷ lots

  -- The references of the incoming notice that are new.
  abbrev pub new_refs : CanonicalNotice Amount → CanonicalNotice Amount → List SourceRef
  new_refs canonical incoming =
      select (λ ref. not (elem (ref_key ref) (external_ids canonical))) (source_refs incoming)

  unfoldable pub merge : CanonicalNotice Amount → CanonicalNotice Amount → CanonicalNotice Amount
  unfolding longer_title longer_description unique merge_dates merge_buyer merge_amounts
      merge_documents merge_urls merge_lots
  merge canonical incoming = record canonical {
    more_refs = canonical.more_refs ++ new_refs canonical incoming;
    title = longer_title canonical.title incoming.title;
    description = longer_description canonical.description incoming.description;
    cpv = unique (canonical.cpv ++ incoming.cpv);
    nuts = unique (canonical.nuts ++ incoming.nuts);
    dates = merge_dates canonical.dates incoming.dates;
    buyer = merge_buyer canonical.buyer incoming.buyer;
    amounts = merge_amounts canonical.amounts incoming.amounts;
    procedure = record canonical.procedure {
      type = filled canonical.procedure.type incoming.procedure.type;
    };
    documents = merge_documents canonical.documents incoming.documents;
    urls = merge_urls canonical.urls incoming.urls;
    lots = merge_lots canonical.lots incoming.lots;
    award = filled canonical.award incoming.award;
  }
