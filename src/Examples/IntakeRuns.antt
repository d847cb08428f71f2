-- ===== src/Examples/IntakeRuns.antt =====
-- Runs of the fetch stage and of the documents.
use bid_pilot.Prelude.{
  ℕ, ◌+◌, ◌≡◌, refl, true, false, String, Option, none, some, List, [], ◌∷◌, map, All, arith,
}
use bid_pilot.Prelude.Outcome.{ok}
use bid_pilot.Store.{Db}
use bid_pilot.Fetch.{RawNotice, store_raw}
use bid_pilot.Fetch.Stored.{store_raw-again}
use bid_pilot.Scheduler.Text.{str, strip}
use bid_pilot.Matching.Filters.{contains, starts_with}
use bid_pilot.Documents.{
  Page, ExtractedDocument, page_window, page_count, has_ocr_pages, page_number, windows_from, cost,
  page_marker, verify_citation, quoted_on, to_prompt_text, is_wanted, join,
}
use bid_pilot.Documents.Windows.{Fits, flatten, page_window-Split}
use bid_pilot.Examples.Samples.{at, one_source, boamp}

abbrev raw : RawNotice
raw = record { external_id = "26-1"; payload = "{}"; fetched_at = none; content_hash = some "abc" }

store_raw-again_example :
    (r : Option String) × (db' : Db) × (store_raw (at 5) boamp raw one_source ≡ ok (r, db'))
    × (store_raw (at 9) boamp raw db' ≡ ok (none, record db' { drawn = db'.drawn + 1 }))
store_raw-again_example = store_raw-again (at 5) (at 9) boamp raw one_source

abbrev document : ExtractedDocument
document = record {
  pages =
      record { number = 1; text = "Article 1" }
      ∷ record { number = 2; text = "Article 2" }
      ∷ record { number = 3; text = "Article 3: delai" }
      ∷ [];
  ocr_pages = [];
  title = none;
}

program : Unit {0}
unfolding page_window windows_from cost page_marker str verify_citation quoted_on contains
    starts_with strip to_prompt_text is_wanted join
program = tt

abbrev same : List ℕ → List ℕ
same cs = cs

split_and_cited :
    (page_window document 45 ≡ ok ((1 ∷ 2 ∷ []) ∷ (3 ∷ []) ∷ []))
    × (verify_citation same document 3 "delai" ≡ true)
    × (page_count document ≡ 3)
    × (has_ocr_pages document ≡ false)
    × (to_prompt_text document (some (2 ∷ [])) ≡ "[[page:2]]\nArticle 2")
unfolding program
split_and_cited = (refl, refl, refl, refl, refl)

page_window-Split_example :
    (ws : List (List Page)) × (page_window document 45 ≡ ok (map (map page_number) ws))
    × (flatten ws ≡ document.pages)
    × All (Fits 45) ws
page_window-Split_example = page_window-Split document 45 (omega arith)
