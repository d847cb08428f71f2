-- ===== src/Canonical/Stable.antt =====
-- The cleaned code lists (canonical.py: `_clean_cpv`, `_clean_nuts`). A stored notice is validated again
-- when it is read (pipeline.py: `_load_canonical`).
use bid_pilot.Prelude.{
  ℕ, zero, suc, ◌≡◌, refl, sym, ap, ◌∙◌, subst, Bool, true, false, not, ◌&&◌, arith, List, [], ◌∷◌,
  ◌++◌, append_assoc, append-nil, any-append, All, All-append, All-selected, select, take,
  Bool-cases, inl, inr, if◌then◌else◌,
}
use bid_pilot.Canonical.Clean.{
  Text, Characters, same_text, is_in, clean_from, clean_cpv, clean_nuts, is_cpv, is_region,
  cpv_digits, nuts_text, digits,
}
use bid_pilot.Canonical.Texts.{same_text_comm, IsDistinct, IsDistinct-concat}

module _ (form : Text → Text) (test : Text → Bool) where
  -- In its form, and accepted.
  abbrev pub IsClean : Text → Type 0
  IsClean t = (form t ≡ t) × (test t ≡ true)

  clean_from-IsDistinct :
      (out codes : List Text) → IsDistinct out → IsDistinct (clean_from form test out codes)
  unfolding clean_from
  clean_from-IsDistinct out [] d = d
  clean_from-IsDistinct out (c ∷ cs) d =
      elim (Bool-cases (test (form c) && not (is_in out (form c)))) [
        | inl e ↦ rw e (
            clean_from-IsDistinct (out ++ form c ∷ []) cs
              (IsDistinct-concat out (form c) d (ground arith)))
        | inr e ↦ rw e (clean_from-IsDistinct out cs d)
      ]

  clean_from-IsClean :
      ((c : Text) → form (form c) ≡ form c)
      → (out codes : List Text) → All IsClean out
      → All IsClean (clean_from form test out codes)
  unfolding clean_from
  clean_from-IsClean k out [] h = h
  clean_from-IsClean k out (c ∷ cs) h =
      elim (Bool-cases (test (form c) && not (is_in out (form c)))) [
        | inl e ↦ rw e (
            clean_from-IsClean k (out ++ form c ∷ []) cs
              (All-append IsClean out (form c ∷ []) h ((k c, ground arith), tt)))
        | inr e ↦ rw e (clean_from-IsClean k out cs h)
      ]

  -- No text of the second list is in the first.
  abbrev Apart : List Text → List Text → Type 0
  Apart out codes = All (λ t. is_in out t ≡ false) codes

  Apart-concat :
      (out codes : List Text) (c : Text)
      → Apart out codes
      → is_in codes c ≡ false
      → Apart (out ++ c ∷ []) codes
  Apart-concat out [] c h k = tt
  Apart-concat out (t ∷ ts) c h k = (
    ground (arith, any-append (same_text t) out (c ∷ []), same_text_comm t c, h.0),
    Apart-concat out ts c h.1 (ground arith),
  )

  clean_from-again :
      (out codes : List Text)
      → All IsClean codes
      → IsDistinct codes
      → Apart out codes
      → clean_from form test out codes ≡ out ++ codes
  unfolding clean_from
  clean_from-again out [] h d a = sym (append-nil out)
  clean_from-again out (c ∷ cs) h d a =
      subst
        (λ t.
          (if test t && not (is_in out t)
            then clean_from form test (out ++ t ∷ []) cs
            else clean_from form test out cs)
          ≡ out ++ c ∷ cs)
        (sym h.0.0)
        (rw (h.0.1, a.0)
          (clean_from-again (out ++ c ∷ []) cs h.1 d.1 (Apart-concat out cs c a.1 d.0)
            ∙ append_assoc out (c ∷ []) cs))

  Apart-nil : (codes : List Text) → Apart [] codes
  Apart-nil [] = tt
  Apart-nil (c ∷ cs) = (refl, Apart-nil cs)

  -- What a cleaned list is.
  pub clean_from-stable :
      ((c : Text) → form (form c) ≡ form c)
      → (codes : List Text)
      → (clean_from form test [] (clean_from form test [] codes) ≡ clean_from form test [] codes)
        × All IsClean (clean_from form test [] codes)
        × IsDistinct (clean_from form test [] codes)
  clean_from-stable k codes =
      let clean : All IsClean (clean_from form test [] codes) = clean_from-IsClean k [] codes tt in
      let distinct : IsDistinct (clean_from form test [] codes) =
        clean_from-IsDistinct [] codes tt in
      (
        clean_from-again [] (clean_from form test [] codes) clean distinct (Apart-nil _),
        clean,
        distinct,
      )

take-take : (n : ℕ) (xs : Text) → take n (take n xs) ≡ take n xs
take-take zero xs = refl
take-take (suc n) [] = refl
take-take (suc n) (x ∷ xs) = ap (λ ys. x ∷ ys) (take-take n xs)

select-take :
    (p : ℕ → Bool) (n : ℕ) (xs : Text) → All (λ x. p x ≡ true) xs → select p (take n xs) ≡ take n xs
select-take p zero xs h = refl
select-take p (suc n) [] h = refl
select-take p (suc n) (x ∷ xs) h = rw h.0 (ap (λ ys. x ∷ ys) (select-take p n xs h.1))

module _ (u : Characters) where
  cpv_digits-again : (code : Text) → cpv_digits u (cpv_digits u code) ≡ cpv_digits u code
  cpv_digits-again code =
      ap (take 8) (select-take u.is_digit 8 (digits u code) (All-selected u.is_digit code))
      ∙ take-take 8 (digits u code)

  -- The cleaned CPV codes are distinct, each is its own digits and has eight of them, and cleaning them
  -- again changes nothing.
  pub clean_cpv-stable :
      (codes : List Text)
      → (clean_cpv u (clean_cpv u codes) ≡ clean_cpv u codes)
        × All (IsClean (cpv_digits u) (is_cpv u)) (clean_cpv u codes)
        × IsDistinct (clean_cpv u codes)
  unfolding clean_cpv
  clean_cpv-stable codes = clean_from-stable (cpv_digits u) (is_cpv u) cpv_digits-again codes

  -- The same of the NUTS regions, if stripping and upper case leave a text alone that they made.
  pub clean_nuts-stable :
      ((c : Text) → u.upper (u.strip (u.upper (u.strip c))) ≡ u.upper (u.strip c))
      → (codes : List Text)
      → (clean_nuts u (clean_nuts u codes) ≡ clean_nuts u codes)
        × All (IsClean (nuts_text u) (is_region u)) (clean_nuts u codes)
        × IsDistinct (clean_nuts u codes)
  unfolding clean_nuts
  clean_nuts-stable k codes = clean_from-stable (nuts_text u) (is_region u) k codes
