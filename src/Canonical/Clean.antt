-- ===== src/Canonical/Clean.antt =====
-- The validators of the canonical notice (canonical.py: `Buyer`, `_country_alpha2`, `_clean_cpv`,
-- `_clean_nuts`), over code points. `Characters` has what Unicode's tables say of a character, and
-- `upper` and `strip` on texts.
use bid_pilot.Prelude.{
  ℕ, ◌==◌, Bool, true, false, not, ◌&&◌, ◌||◌, Option, none, some, List, [], ◌∷◌, ◌++◌, all, any,
  leb, length, select, take, if◌then◌else◌,
}
use bid_pilot.Prelude.Outcome.{Result, ok, err, value_error}

abbrev pub Text : Type 0
Text = List ℕ

pub record Characters : Type 0 where
  pub is_digit : ℕ → Bool
  pub is_alpha : ℕ → Bool
  pub upper : Text → Text
  pub strip : Text → Text

unfoldable pub same_text : Text → Text → Bool
same_text [] [] = true
same_text (c ∷ cs) (d ∷ ds) = c == d && same_text cs ds
same_text _ _ = false

-- `code in out`
abbrev pub is_in : List Text → Text → Bool
is_in out code = any (same_text code) out

-- `v.isalpha()`, which is false of the empty text
abbrev pub all_alpha : Characters → Text → Bool
all_alpha u [] = false
all_alpha u (c ∷ cs) = all u.is_alpha (c ∷ cs)

-- The loop of both code lists, after the elements of `out`: a code is brought to its form, and kept if
-- the test accepts the form and it is not there already.
unfoldable pub clean_from : (Text → Text) → (Text → Bool) → List Text → List Text → List Text
clean_from form test out [] = out
clean_from form test out (code ∷ codes) =
    let kept = clean_from form test (out ++ form code ∷ []) codes in
    let skipped = clean_from form test out codes in
    if test (form code) && not (is_in out (form code)) then kept else skipped

module _ (u : Characters) where
  abbrev pub digits : Text → Text
  digits v = select u.is_digit v

  -- `digits or None`
  unfoldable pub or_none : Text → Option Text
  or_none [] = none
  or_none (c ∷ cs) = some (c ∷ cs)

  unfoldable pub digits_only : Option Text → Option Text
  unfolding or_none
  digits_only none = none
  digits_only (some v) = or_none (digits v)

  -- The length check that follows.
  unfoldable pub of_length : ℕ → Option Text → Option Text
  of_length n none = none
  of_length n (some v) = if length v == n then some v else none

  abbrev pub clean_siren : Option Text → Option Text
  clean_siren v = of_length 9 (digits_only v)

  abbrev pub clean_siret : Option Text → Option Text
  clean_siret v = of_length 14 (digits_only v)

  unfoldable pub country_alpha2 : Text → Result Text
  country_alpha2 v =
      if not (length (u.upper v) == 2) || not (all_alpha u (u.upper v))
      then err (value_error "country must be ISO-3166 alpha-2")
      else ok (u.upper v)

  -- `"".join(ch for ch in code if ch.isdigit())[:8]`
  abbrev pub cpv_digits : Text → Text
  cpv_digits code = take 8 (digits code)

  abbrev pub is_cpv : Text → Bool
  is_cpv code = length code == 8

  unfoldable pub clean_cpv : List Text → List Text
  unfolding clean_from
  clean_cpv v = clean_from cpv_digits is_cpv [] v

  abbrev pub nuts_text : Text → Text
  nuts_text code = u.upper (u.strip code)

  -- A country of three letters is left out, and a region has two letters first.
  unfoldable pub is_region : Text → Bool
  is_region c =
      not (length c == 3 && all_alpha u c)
      && leb 2 (length c)
      && leb (length c) 5
      && all_alpha u (take 2 c)

  unfoldable pub clean_nuts : List Text → List Text
  unfolding clean_from is_region
  clean_nuts v = clean_from nuts_text is_region [] v
