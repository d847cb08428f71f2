-- ===== src/Canonical/Texts.antt =====
-- Equality of texts, and lists of texts without repetitions (canonical.py and dedupe.py compare texts).
use bid_pilot.Prelude.{◌≡◌, refl, true, false, arith, List, [], ◌∷◌, ◌++◌, any-append}
use bid_pilot.Canonical.Clean.{Text, same_text, is_in}

pub same_text_comm : (a b : Text) → same_text a b ≡ same_text b a
unfolding same_text
same_text_comm [] [] = refl
same_text_comm [] (d ∷ ds) = refl
same_text_comm (c ∷ cs) [] = refl
same_text_comm (c ∷ cs) (d ∷ ds) = ground (arith, same_text_comm cs ds)

pub same_text-eq : (a b : Text) → same_text a b ≡ true → a ≡ b
unfolding same_text
same_text-eq [] [] h = refl
same_text-eq [] (d ∷ ds) h = cc
same_text-eq (c ∷ cs) [] h = cc
same_text-eq (c ∷ cs) (d ∷ ds) h =
    let head : c ≡ d = ground arith in let tail : cs ≡ ds = same_text-eq cs ds (ground arith) in cc

-- No text stands twice in the list.
abbrev pub IsDistinct : List Text → Type 0
IsDistinct [] = Unit
IsDistinct (t ∷ ts) = (is_in ts t ≡ false) × IsDistinct ts

pub IsDistinct-concat :
    (xs : List Text) (s : Text) → IsDistinct xs → is_in xs s ≡ false → IsDistinct (xs ++ s ∷ [])
IsDistinct-concat [] s u absent = (refl, tt)
IsDistinct-concat (x ∷ xs) s u absent = (
  ground (arith, any-append (same_text x) xs (s ∷ []), same_text_comm x s),
  IsDistinct-concat xs s u.1 (ground arith),
)

pub same_text_refl : (t : Text) → same_text t t ≡ true
unfolding same_text
same_text_refl [] = refl
same_text_refl (c ∷ cs) = ground (arith, same_text_refl cs)
