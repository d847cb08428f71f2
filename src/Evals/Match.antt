-- ===== src/Evals/Match.antt =====
-- The greedy pairing of requirements (evals.py: `match_requirements`). Floating-point numbers and the
-- similarity of two texts are arguments.
use bid_pilot.Prelude.{
  ℕ, ◌+◌, ◌==◌, ◌&&◌, ◌||◌, not, Bool, String, List, [], ◌∷◌, ◌++◌, map, select, length, ltb,
  if◌then◌else◌,
}
use bid_pilot.Scheduler.Cron.{elem_ℕ, range_from}
use bid_pilot.Dedupe.Similar.{Floats}

-- A prediction or an item of the gold file: its text is "" where the file has none.
pub record Requirement : Type 0 where
  pub text : String

-- `(score, p_index, g_index)`
pub record Scored (F : Type 0) : Type 0 where
  pub score : F
  pub p_index : ℕ
  pub g_index : ℕ

pub record Matching : Type 0 where
  pub pairs : List (ℕ × ℕ)
  pub unmatched_predicted : List ℕ
  pub unmatched_gold : List ℕ

-- The indexes below a number that are not used.
unfoldable pub unused : List ℕ → ℕ → List ℕ
unfolding range_from
unused used n = select (λ i. not (elem_ℕ i used)) (range_from 0 n)

module _ {F : Type 0} (f : Floats F) where
  -- MATCH_THRESHOLD
  abbrev pub match_threshold : F
  match_threshold = f.ratio 6 10

  -- The loop over the gold items, from an index on.
  unfoldable pub scored_row :
      (String → String → F) → ℕ → Requirement → ℕ → List Requirement → List (Scored F)
  scored_row similarity i p j [] = []
  scored_row similarity i p j (g ∷ gs) =
      let rest = scored_row similarity i p (j + 1) gs in
      let score = similarity p.text g.text in
      if f.le match_threshold score
      then record { score = score; p_index = i; g_index = j } ∷ rest
      else rest

  -- The loop over the predictions, from an index on.
  unfoldable pub scored_from :
      (String → String → F) → ℕ → List Requirement → List Requirement → List (Scored F)
  unfolding scored_row
  scored_from similarity i [] gold = []
  scored_from similarity i (p ∷ ps) gold =
      scored_row similarity i p 0 gold ++ scored_from similarity (i + 1) ps gold

  -- The order of triples, which compares the next parts where two are equal.
  abbrev pub precedes : Scored F → Scored F → Bool
  precedes a b =
      f.lt a.score b.score
      || f.equal a.score b.score
        && (ltb a.p_index b.p_index || a.p_index == b.p_index && ltb a.g_index b.g_index)

  -- `scored.sort(reverse=True)`
  unfoldable pub insert_descending : Scored F → List (Scored F) → List (Scored F)
  insert_descending x [] = x ∷ []
  insert_descending x (y ∷ ys) =
      let rest = insert_descending x ys in if precedes x y then y ∷ rest else x ∷ y ∷ ys

  unfoldable pub sort_descending : List (Scored F) → List (Scored F)
  unfolding insert_descending
  sort_descending [] = []
  sort_descending (x ∷ xs) = insert_descending x (sort_descending xs)

  -- The loop that takes a triple unless one of its indexes is used.
  unfoldable pub pick : List ℕ → List ℕ → List (Scored F) → List (ℕ × ℕ)
  pick used_p used_g [] = []
  pick used_p used_g (c ∷ cs) =
      let skipped = pick used_p used_g cs in
      let rest = pick (c.p_index ∷ used_p) (c.g_index ∷ used_g) cs in
      if elem_ℕ c.p_index used_p || elem_ℕ c.g_index used_g
      then skipped
      else (c.p_index, c.g_index) ∷ rest

  unfoldable pub match_requirements :
      (String → String → F) → List Requirement → List Requirement → Matching
  unfolding scored_from sort_descending pick unused
  match_requirements similarity predicted gold =
      let pairs = pick [] [] (sort_descending (scored_from similarity 0 predicted gold)) in
      record {
        pairs = pairs;
        unmatched_predicted = unused (map (λ q. q.0) pairs) (length predicted);
        unmatched_gold = unused (map (λ q. q.1) pairs) (length gold);
      }
