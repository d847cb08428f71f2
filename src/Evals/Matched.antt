-- ===== src/Evals/Matched.antt =====
-- The pairing is a matching that cannot be extended (evals.py: `match_requirements`).
use bid_pilot.Prelude.{
  ℕ, ◌+◌, ◌||◌, not, Bool, true, false, String, List, [], map, length, get_elem?, some, none, All,
  ◌≡◌, refl, Bool-cases, inl, inr, arith, All-imp, All-selected, Option,
}
use bid_pilot.Evals.Picked.{
  IsMatching, Covers, pick-Covers, pick-All, pick-IsMatching, sort_descending-All,
  All-sort_descending,
}
use bid_pilot.Evals.Found.{Alike, moved_to, from-All, All-from}
use bid_pilot.Scheduler.Cron.{elem_ℕ, range_from}
use bid_pilot.Dedupe.Similar.{Floats}
use bid_pilot.Evals.Match.{
  Requirement, match_threshold, scored_from, sort_descending, pick, unused, match_requirements,
}

module _ {F : Type 0} (f : Floats F) (similarity : String → String → F) where
  -- Whether two requirements are there and reach the threshold
  abbrev pub are_alike : Option Requirement → Option Requirement → Bool
  are_alike (some p) (some g) = f.le (match_threshold f) (similarity p.text g.text)
  are_alike (some p) none = false
  are_alike none g = false

  are_alike-intro :
      (o q : Option Requirement)
      → (p g : Requirement) → o ≡ some p
      → q ≡ some g
      → Alike f similarity p g
      → are_alike o q ≡ true
  are_alike-intro o q p g there found alike = rw (there, found) alike

  covered :
      (predicted gold : List Requirement)
      → (k l : ℕ) → (o q : Option Requirement) → get_elem? predicted k ≡ o
      → get_elem? gold l ≡ q
      → let pairs = pick f [] [] (sort_descending f (scored_from f similarity 0 predicted gold)) in
        not (elem_ℕ k (map (λ r. r.0) pairs)) ≡ true
        → not (elem_ℕ l (map (λ r. r.1) pairs)) ≡ true
        → are_alike o q ≡ false
  covered predicted gold k l none q there found free_p free_g = refl
  covered predicted gold k l (some p) none there found free_p free_g = refl
  covered predicted gold k l (some p) (some g) there found free_p free_g =
      let pairs = pick f [] [] (sort_descending f (scored_from f similarity 0 predicted gold)) in
      let hits = λ (r : ℕ × ℕ).
        (elem_ℕ r.0 (map (λ z. z.0) pairs) || elem_ℕ r.1 (map (λ z. z.1) pairs)) ≡ true in
      elim (Bool-cases (f.le (match_threshold f) (similarity p.text g.text))) [
        | inl alike ↦
            (let hit : (elem_ℕ k (map (λ r. r.0) pairs) || elem_ℕ l (map (λ r. r.1) pairs)) ≡ true =
                moved_to hits (0 + k) k l l (omega arith) refl (
                  All-from f similarity hits 0 predicted gold
                    (All-sort_descending f (Covers f [] [] pairs)
                      (scored_from f similarity 0 predicted gold)
                      (pick-Covers f [] []
                        (sort_descending f (scored_from f similarity 0 predicted gold))))
                    k l p g there found alike) in
              ground (arith, hit, free_p, free_g))
        | inr low ↦ low
      ]

  -- No index stands in two pairs of the greedy pairing. The two requirements of a pair reach the
  -- threshold. No unmatched prediction reaches it with an unmatched gold item.
  pub match_requirements-IsMatching :
      (predicted gold : List Requirement)
      → let m = match_requirements f similarity predicted gold in
        IsMatching m.pairs
        × All (λ r. are_alike (get_elem? predicted r.0) (get_elem? gold r.1) ≡ true) m.pairs
        × All
            (λ k.
              All
                (λ l. are_alike (get_elem? predicted k) (get_elem? gold l) ≡ false)
                m.unmatched_gold)
            m.unmatched_predicted
  unfolding match_requirements unused
  match_requirements-IsMatching predicted gold =
      let sorted = sort_descending f (scored_from f similarity 0 predicted gold) in
      let pairs = pick f [] [] sorted in
      let alike = λ (r : ℕ × ℕ). are_alike (get_elem? predicted r.0) (get_elem? gold r.1) ≡ true in
      (
        (pick-IsMatching f [] [] sorted).1,
        pick-All f alike [] [] sorted (
            sort_descending-All f (λ c. alike (c.p_index, c.g_index))
              (scored_from f similarity 0 predicted gold)
              (from-All f similarity alike 0 predicted gold (λ k l p g there found h.
                moved_to alike k (0 + k) l l (omega arith) refl
                  (are_alike-intro (get_elem? predicted k) (get_elem? gold l) p g there found h)))),
        All-imp (λ k. not (elem_ℕ k (map (λ r. r.0) pairs)) ≡ true)
            (λ k.
              All (λ l. are_alike (get_elem? predicted k) (get_elem? gold l) ≡ false)
                (unused (map (λ r. r.1) pairs) (length gold)))
            (λ k free_p.
              All-imp (λ l. not (elem_ℕ l (map (λ r. r.1) pairs)) ≡ true)
                (λ l. are_alike (get_elem? predicted k) (get_elem? gold l) ≡ false)
                (λ l free_g.
                  covered predicted gold k l (get_elem? predicted k) (get_elem? gold l) refl refl
                    free_p free_g)
                (unused (map (λ r. r.1) pairs) (length gold))
                (All-selected (λ l. not (elem_ℕ l (map (λ r. r.1) pairs)))
                  (range_from 0 (length gold))))
            (unused (map (λ r. r.0) pairs) (length predicted))
            (All-selected (λ k. not (elem_ℕ k (map (λ r. r.0) pairs)))
              (range_from 0 (length predicted))),
      )
