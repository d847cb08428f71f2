-- ===== src/Documents.antt =====
-- Documents as pages (services/ingestion/bidpilot_ingestion/documents.py: `Page`, `ExtractedDocument`,
-- `to_prompt_text`, `page_window`, `verify_citation`). Reading a PDF is the work of pypdf. The case
-- folding of `_collapse`, which rests on Unicode tables, is an argument.
pub mod Windows
use Prim.Native.String.{◌++◌ as cat}
use bid_pilot.Prelude.{
  ℕ, ◌+◌, ◌==◌, Bool, true, false, not, ◌&&◌, String, Option, none, some, List, [], ◌∷◌, ◌++◌, map,
  any, find, leb, ltb, length, select, if◌then◌else◌,
}
use bid_pilot.Prelude.Outcome.{Result, ok, err, value_error}
use bid_pilot.Scheduler.Text.{codes, strip, str}
use bid_pilot.Matching.Filters.{contains, is_empty}

-- MIN_CHARS_FOR_TEXT_PAGE
abbrev pub min_chars_for_text_page : ℕ
min_chars_for_text_page = 40

-- PAGE_MARKER with a page's number
unfoldable pub page_marker : ℕ → String
page_marker page = cat "[[page:" (cat (str page) "]]")

pub record Page : Type 0 where
  pub number : ℕ
  pub text : String

abbrev pub needs_ocr : Page → Bool
needs_ocr p = ltb (length (strip (codes p.text))) min_chars_for_text_page

pub record ExtractedDocument : Type 0 where
  pub pages : List Page
  pub ocr_pages : List ℕ
  pub title : Option String

abbrev pub page_count : ExtractedDocument → ℕ
page_count document = length document.pages

-- `ExtractedDocument.needs_ocr`
abbrev pub has_ocr_pages : ExtractedDocument → Bool
has_ocr_pages document = not (is_empty document.ocr_pages)

-- `page.number not in wanted`, when a selection is given
unfoldable pub is_wanted : Option (List ℕ) → Page → Bool
is_wanted none p = true
is_wanted (some wanted) p = any (λ n. n == p.number) wanted

abbrev pub chunk : Page → String
chunk p = cat (page_marker p.number) (cat "\n" p.text)

-- `"\n\n".join(chunks)`
unfoldable pub join : List String → String
join [] = ""
join (c ∷ []) = c
join (c ∷ d ∷ cs) = cat c (cat "\n\n" (join (d ∷ cs)))

unfoldable pub to_prompt_text : ExtractedDocument → Option (List ℕ) → String
unfolding is_wanted join
to_prompt_text document pages = join (map chunk (select (is_wanted pages) document.pages))

-- The part of the budget that a page takes with its marker.
unfoldable pub cost : Page → ℕ
cost p = length (codes p.text) + length (codes (page_marker p.number)) + 2

-- The loop, with the pages of the current window and what they use. A window is kept as its pages.
unfoldable pub windows_from : ℕ → List Page → ℕ → List Page → List (List Page)
windows_from most [] used [] = []
windows_from most (c ∷ cs) used [] = (c ∷ cs) ∷ []
windows_from most current used (p ∷ ps) =
    let apart = windows_from most (p ∷ []) (cost p) ps in
    let together = windows_from most (current ++ p ∷ []) (used + cost p) ps in
    if not (is_empty current) && ltb most (used + cost p) then current ∷ apart else together

abbrev pub page_number : Page → ℕ
page_number p = p.number

unfoldable pub page_window : ExtractedDocument → ℕ → Result (List (List ℕ))
unfolding windows_from
page_window document max_chars =
    if leb max_chars 0
    then err (value_error "max_chars must be positive")
    else ok (map (map page_number) (windows_from max_chars [] 0 document.pages))

-- `_collapse(quote) in _collapse(target.text)` for the first page with the number
unfoldable pub quoted_on : (List ℕ → List ℕ) → List ℕ → Option Page → Bool
quoted_on collapse quote none = false
quoted_on collapse quote (some target) =
    not (is_empty (strip quote)) && contains (collapse (codes target.text)) (collapse quote)

unfoldable pub verify_citation : (List ℕ → List ℕ) → ExtractedDocument → ℕ → String → Bool
unfolding quoted_on
verify_citation collapse document page quote =
    quoted_on collapse (codes quote) (find (λ p. p.number == page) document.pages)
