-- ===== src/Evals/Picked.antt =====
-- What the loop over the sorted triples takes (evals.py: `match_requirements`).
use bid_pilot.Prelude.{
  ℕ, ◌==◌, ◌||◌, true, false, List, [], ◌∷◌, map, All, ◌≡◌, refl, Bool-cases, inl, inr, arith,
  subst, sym,
}
use bid_pilot.Scheduler.Cron.{elem_ℕ}
use bid_pilot.Dedupe.Similar.{Floats}
use bid_pilot.Evals.Match.{Scored, precedes, insert_descending, sort_descending, pick}

-- No index occurs in two pairs.
abbrev pub IsMatching : List (ℕ × ℕ) → Type 0
IsMatching [] = Unit
IsMatching (q ∷ qs) = All (λ r. (q.0 == r.0 || q.1 == r.1) ≡ false) qs × IsMatching qs

module _ {F : Type 0} (f : Floats F) where
  abbrev pub Covers : List ℕ → List ℕ → List (ℕ × ℕ) → Scored F → Type 0
  Covers ps gs pairs c =
      (elem_ℕ c.p_index ps
        || elem_ℕ c.g_index gs
        || elem_ℕ c.p_index (map (λ q. q.0) pairs)
        || elem_ℕ c.g_index (map (λ q. q.1) pairs))
      ≡ true

  moved :
      (ps gs : List ℕ)
      → (c : Scored F) → (pairs : List (ℕ × ℕ)) → (cs : List (Scored F))
      → All (Covers (c.p_index ∷ ps) (c.g_index ∷ gs) pairs) cs
      → All (Covers ps gs ((c.p_index, c.g_index) ∷ pairs)) cs
  moved ps gs c pairs [] h = tt
  moved ps gs c pairs (d ∷ ds) h = (ground (arith, h.0), moved ps gs c pairs ds h.1)

  pick-used :
      (ps gs : List ℕ)
      → (c : Scored F) → (cs : List (Scored F))
      → (elem_ℕ c.p_index ps || elem_ℕ c.g_index gs) ≡ true
      → pick f ps gs (c ∷ cs) ≡ pick f ps gs cs
  unfolding pick
  pick-used ps gs c cs used = rw used refl

  pick-free :
      (ps gs : List ℕ)
      → (c : Scored F) → (cs : List (Scored F))
      → (elem_ℕ c.p_index ps || elem_ℕ c.g_index gs) ≡ false
      → pick f ps gs (c ∷ cs) ≡ (c.p_index, c.g_index) ∷ pick f (c.p_index ∷ ps) (c.g_index ∷ gs) cs
  unfolding pick
  pick-free ps gs c cs free = rw free refl

  pub pick-Covers :
      (ps gs : List ℕ) → (cs : List (Scored F)) → All (Covers ps gs (pick f ps gs cs)) cs
  pick-Covers ps gs [] = tt
  pick-Covers ps gs (c ∷ cs) = elim (Bool-cases (elem_ℕ c.p_index ps || elem_ℕ c.g_index gs)) [
    | inl used ↦
        subst (λ z. All (Covers ps gs z) (c ∷ cs)) (sym (pick-used ps gs c cs used))
          (ground (arith, used), pick-Covers ps gs cs)
    | inr free ↦
        subst (λ z. All (Covers ps gs z) (c ∷ cs)) (sym (pick-free ps gs c cs free))
          (
            ground arith,
            moved ps gs c (pick f (c.p_index ∷ ps) (c.g_index ∷ gs) cs) cs
                (pick-Covers (c.p_index ∷ ps) (c.g_index ∷ gs) cs),
          )
  ]

  -- What holds of every candidate holds of some score of every pair.
  pub pick-All :
      (P : ℕ × ℕ → Type 0)
      → (ps gs : List ℕ) → (cs : List (Scored F)) → All (λ c. P (c.p_index, c.g_index)) cs
      → All P (pick f ps gs cs)
  unfolding pick
  pick-All P ps gs [] h = tt
  pick-All P ps gs (c ∷ cs) h = elim (Bool-cases (elem_ℕ c.p_index ps || elem_ℕ c.g_index gs)) [
    | inl used ↦ rw used (pick-All P ps gs cs h.1)
    | inr free ↦ rw free (h.0, pick-All P (c.p_index ∷ ps) (c.g_index ∷ gs) cs h.1)
  ]

  abbrev pub Fresh : List ℕ → List ℕ → ℕ × ℕ → Type 0
  Fresh ps gs q = (elem_ℕ q.0 ps || elem_ℕ q.1 gs) ≡ false

  fewer :
      (p g : ℕ)
      → (ps gs : List ℕ) → (qs : List (ℕ × ℕ)) → All (Fresh (p ∷ ps) (g ∷ gs)) qs
      → All (Fresh ps gs) qs × All (λ r. (p == r.0 || g == r.1) ≡ false) qs
  fewer p g ps gs [] h = (tt, tt)
  fewer p g ps gs (q ∷ qs) h =
      let rest = fewer p g ps gs qs h.1 in
      ((ground (arith, h.0), rest.0), (ground (arith, h.0), rest.1))

  pub pick-IsMatching :
      (ps gs : List ℕ)
      → (cs : List (Scored F)) → All (Fresh ps gs) (pick f ps gs cs) × IsMatching (pick f ps gs cs)
  unfolding pick
  pick-IsMatching ps gs [] = (tt, tt)
  pick-IsMatching ps gs (c ∷ cs) =
      let rest = pick-IsMatching (c.p_index ∷ ps) (c.g_index ∷ gs) cs in
      let apart =
        fewer c.p_index c.g_index ps gs (pick f (c.p_index ∷ ps) (c.g_index ∷ gs) cs) rest.0 in
      elim (Bool-cases (elem_ℕ c.p_index ps || elem_ℕ c.g_index gs)) [
        | inl used ↦ rw used (pick-IsMatching ps gs cs)
        | inr free ↦ rw free ((free, apart.0), (apart.1, rest.1))
      ]

  insert_descending-All :
      (P : Scored F → Type 0)
      → (x : Scored F) → (xs : List (Scored F)) → P x
      → All P xs
      → All P (insert_descending f x xs)
  unfolding insert_descending
  insert_descending-All P x [] h hs = (h, tt)
  insert_descending-All P x (y ∷ ys) h hs = elim (Bool-cases (precedes f x y)) [
    | inl e ↦ rw e (hs.0, insert_descending-All P x ys h hs.1)
    | inr e ↦ rw e (h, hs)
  ]

  All-insert_descending :
      (P : Scored F → Type 0)
      → (x : Scored F) → (xs : List (Scored F)) → All P (insert_descending f x xs)
      → P x × All P xs
  unfolding insert_descending
  All-insert_descending P x [] = λ hs. hs
  All-insert_descending P x (y ∷ ys) = elim (Bool-cases (precedes f x y)) [
    | inl e ↦ rw e (λ hs. let rest = All-insert_descending P x ys hs.1 in (rest.0, (hs.0, rest.1)))
    | inr e ↦ rw e (λ hs. hs)
  ]

  pub sort_descending-All :
      (P : Scored F → Type 0) → (xs : List (Scored F)) → All P xs → All P (sort_descending f xs)
  unfolding sort_descending
  sort_descending-All P [] hs = tt
  sort_descending-All P (x ∷ xs) hs =
      insert_descending-All P x (sort_descending f xs) hs.0 (sort_descending-All P xs hs.1)

  pub All-sort_descending :
      (P : Scored F → Type 0) → (xs : List (Scored F)) → All P (sort_descending f xs) → All P xs
  unfolding sort_descending
  All-sort_descending P [] hs = tt
  All-sort_descending P (x ∷ xs) hs =
      let rest = All-insert_descending P x (sort_descending f xs) hs in
      (rest.0, All-sort_descending P xs rest.1)
