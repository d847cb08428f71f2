-- ===== src/Evals/Found.antt =====
-- The triples are the pairs of indexes that reach the threshold (evals.py: `match_requirements`).
use bid_pilot.Prelude.{
  ℕ, zero, suc, ◌+◌, true, String, List, [], ◌∷◌, get_elem?, some, All, ◌≡◌, refl, Bool-cases, inl,
  inr, arith, subst, All-append, All-append_inv,
}
use bid_pilot.Dedupe.Similar.{Floats}
use bid_pilot.Evals.Match.{Requirement, Scored, match_threshold, scored_row, scored_from}

pub moved_to : (P : ℕ × ℕ → Type 0) → (a b c d : ℕ) → a ≡ b → c ≡ d → P (a, c) → P (b, d)
moved_to P a b c d first second h = subst (λ z. P (b, z)) second (subst (λ z. P (z, c)) first h)

module _ {F : Type 0} (f : Floats F) (similarity : String → String → F) where
  -- Two requirements that the threshold lets match
  abbrev pub Alike : Requirement → Requirement → Type 0
  Alike p g = f.le (match_threshold f) (similarity p.text g.text) ≡ true

  row-All :
      (P : ℕ × ℕ → Type 0)
      → (i : ℕ) → (p : Requirement) → (j : ℕ) → (gs : List Requirement)
      → ((k : ℕ) → (g : Requirement) → get_elem? gs k ≡ some g → Alike p g → P (i, j + k))
      → All (λ c. P (c.p_index, c.g_index)) (scored_row f similarity i p j gs)
  unfolding scored_row
  row-All P i p j [] h = tt
  row-All P i p j (g ∷ gs) h =
      let rest : All (λ c. P (c.p_index, c.g_index)) (scored_row f similarity i p (j + 1) gs) =
        row-All P i p (j + 1) gs
          (λ k y at alike. subst (λ z. P (i, z)) (omega arith) (h (suc k) y at alike)) in
      elim (Bool-cases (f.le (match_threshold f) (similarity p.text g.text))) [
        | inl alike ↦ rw alike (subst (λ z. P (i, z)) (omega arith) (h 0 g refl alike), rest)
        | inr low ↦ rw low rest
      ]

  row-tail :
      (P : Scored F → Type 0)
      → (i : ℕ) → (p : Requirement) → (j : ℕ) → (g : Requirement) → (gs : List Requirement)
      → All P (scored_row f similarity i p j (g ∷ gs))
      → All P (scored_row f similarity i p (j + 1) gs)
  unfolding scored_row
  row-tail P i p j g gs = elim (Bool-cases (f.le (match_threshold f) (similarity p.text g.text))) [
    | inl alike ↦ rw alike (λ h. h.1)
    | inr low ↦ rw low (λ h. h)
  ]

  row-head :
      (P : ℕ × ℕ → Type 0)
      → (i : ℕ) → (p : Requirement) → (j : ℕ) → (g : Requirement) → (gs : List Requirement)
      → Alike p g
      → All (λ c. P (c.p_index, c.g_index)) (scored_row f similarity i p j (g ∷ gs))
      → P (i, j)
  unfolding scored_row
  row-head P i p j g gs alike = rw alike (λ h. h.0)

  All-row :
      (P : ℕ × ℕ → Type 0)
      → (i : ℕ) → (p : Requirement) → (j : ℕ) → (gs : List Requirement)
      → All (λ c. P (c.p_index, c.g_index)) (scored_row f similarity i p j gs)
      → (k : ℕ) → (g : Requirement) → get_elem? gs k ≡ some g
      → Alike p g
      → P (i, j + k)
  All-row P i p j [] h k g at alike = cc
  All-row P i p j (y ∷ gs) h zero g at alike =
      let same : g ≡ y = cc in
      subst (λ z. P (i, z)) (omega arith) (row-head P i p j y gs (subst (Alike p) same alike) h)
  All-row P i p j (y ∷ gs) h (suc k) g at alike =
      subst (λ z. P (i, z)) (omega arith)
        (All-row P i p (j + 1) gs (row-tail (λ c. P (c.p_index, c.g_index)) i p j y gs h) k g at
          alike)

  pub from-All :
      (P : ℕ × ℕ → Type 0)
      → (i : ℕ) → (ps gs : List Requirement)
      → ((k l : ℕ)
          → (p g : Requirement) → get_elem? ps k ≡ some p
          → get_elem? gs l ≡ some g
          → Alike p g
          → P (i + k, l))
      → All (λ c. P (c.p_index, c.g_index)) (scored_from f similarity i ps gs)
  unfolding scored_from
  from-All P i [] gs h = tt
  from-All P i (p ∷ ps) gs h =
      All-append (λ c. P (c.p_index, c.g_index)) (scored_row f similarity i p 0 gs)
        (scored_from f similarity (i + 1) ps gs)
        (row-All P i p 0 gs (λ l g at alike.
          moved_to P (i + 0) i l (0 + l) (omega arith) (omega arith) (h 0 l p g refl at alike)))
        (from-All P (i + 1) ps gs (λ k l q g at found alike.
          subst (λ z. P (z, l)) (omega arith) (h (suc k) l q g at found alike)))

  pub All-from :
      (P : ℕ × ℕ → Type 0)
      → (i : ℕ) → (ps gs : List Requirement)
      → All (λ c. P (c.p_index, c.g_index)) (scored_from f similarity i ps gs)
      → (k l : ℕ) → (p g : Requirement) → get_elem? ps k ≡ some p
      → get_elem? gs l ≡ some g
      → Alike p g
      → P (i + k, l)
  unfolding scored_from
  All-from P i [] gs h k l p g at found alike = cc
  All-from P i (y ∷ ps) gs h zero l p g at found alike =
      let same : p ≡ y = cc in
      let parts =
        All-append_inv (λ c. P (c.p_index, c.g_index)) (scored_row f similarity i y 0 gs)
          (scored_from f similarity (i + 1) ps gs) h in
      moved_to P i (i + 0) (0 + l) l (omega arith) (omega arith)
        (All-row P i y 0 gs parts.0 l g found (subst (λ x. Alike x g) same alike))
  All-from P i (y ∷ ps) gs h (suc k) l p g at found alike =
      let parts =
        All-append_inv (λ c. P (c.p_index, c.g_index)) (scored_row f similarity i y 0 gs)
          (scored_from f similarity (i + 1) ps gs) h in
      subst (λ z. P (z, l)) (omega arith) (All-from P (i + 1) ps gs parts.1 k l p g at found alike)
