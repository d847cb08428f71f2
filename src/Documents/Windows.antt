-- ===== src/Documents/Windows.antt =====
-- How a document is split (documents.py: `page_window`).
use bid_pilot.Prelude.{
  ℕ, ◌+◌, ◌≤◌, ◌<◌, ◌≡◌, refl, ap, ◌∙◌, true, false, arith, List, [], ◌∷◌, ◌++◌, append_assoc, map,
  leb, ltb, length, ◌⊎◌, inl, inr, All, Bool-cases,
}
use bid_pilot.Prelude.Outcome.{ok}
use bid_pilot.Matching.Filters.{is_empty}
use bid_pilot.Documents.{Page, ExtractedDocument, cost, windows_from, page_window, page_number}

abbrev pub total : List Page → ℕ
total [] = 0
total (p ∷ ps) = cost p + total ps

abbrev pub flatten : List (List Page) → List Page
flatten [] = []
flatten (w ∷ ws) = w ++ flatten ws

-- A window has one page, or several that fit the budget together.
abbrev pub Fits : ℕ → List Page → Type 0
Fits most w = (length w ≡ 1) ⊎ (0 < length w) × (total w ≤ most)

total-concat : (ps : List Page) (p : Page) → total (ps ++ p ∷ []) ≡ total ps + cost p
total-concat [] p = omega arith
total-concat (q ∷ ps) p = omega (arith, total-concat ps p)

length-pos : (ps : List Page) (p : Page) → 0 < length (ps ++ p ∷ [])
length-pos [] p = omega arith
length-pos (q ∷ ps) p = omega arith

abbrev Split : ℕ → List Page → List (List Page) → Type 0
Split most pages ws = (flatten ws ≡ pages) × All (Fits most) ws

kept-Fits :
    (most : ℕ) (c : Page) (cs : List Page)
    → (is_empty (c ∷ cs) ≡ true) ⊎ Fits most (c ∷ cs)
    → Fits most (c ∷ cs)
kept-Fits most c cs (inl e) = cc
kept-Fits most c cs (inr f) = f

windows_from-Split :
    (most : ℕ) (current : List Page) (used : ℕ) (pages : List Page)
    → used ≡ total current
    → (is_empty current ≡ true) ⊎ Fits most current
    → Split most (current ++ pages) (windows_from most current used pages)
unfolding windows_from
windows_from-Split most [] used [] u f = (refl, tt)
windows_from-Split most (c ∷ cs) used [] u f = (refl, (kept-Fits most c cs f, tt))
windows_from-Split most [] used (p ∷ ps) u f =
    windows_from-Split most (p ∷ []) (used + cost p) ps (omega arith) (inr (inl refl))
windows_from-Split most (c ∷ cs) used (p ∷ ps) u f = elim (Bool-cases (ltb most (used + cost p))) [
  | inl over ↦
      let rest = windows_from-Split most (p ∷ []) (cost p) ps (omega arith) (inr (inl refl)) in
      rw over (ap (λ l. c ∷ (cs ++ l)) rest.0, (kept-Fits most c cs f, rest.1))
  | inr fits ↦
      let sum = total-concat (c ∷ cs) p in
      let rest =
        windows_from-Split most (c ∷ (cs ++ p ∷ [])) (used + cost p) ps (omega arith)
          (inr (inr (omega arith, ground arith))) in
      rw fits (rest.0 ∙ append_assoc (c ∷ cs) (p ∷ []) ps, rest.1)
]

-- With a positive budget a document is split into windows that hold its pages in order, each exactly
-- once. A window fits the budget with its markers unless it is a single page, and none is empty.
pub page_window-Split :
    (document : ExtractedDocument) (max_chars : ℕ)
    → 0 < max_chars
    → (ws : List (List Page)) × (page_window document max_chars ≡ ok (map (map page_number) ws))
      × (flatten ws ≡ document.pages)
      × All (Fits max_chars) ws
unfolding page_window
page_window-Split document max_chars pos =
    let (whole, fit) = windows_from-Split max_chars [] 0 document.pages refl (inl refl) in
    let allowed : leb max_chars 0 ≡ false = ground arith in
    (windows_from max_chars [] 0 document.pages, rw allowed refl, whole, fit)
