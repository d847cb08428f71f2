-- ===== src/Dedupe/Counted.antt =====
-- The sets of trigrams as lists without repetitions (dedupe.py: `trigrams`, `trigram_similarity`): the
-- number of common elements does not depend on the order of the two sets.
use bid_pilot.Prelude.{
  ℕ, suc, ◌≡◌, refl, ◌+◌, false, arith, some, List, [], ◌∷◌, ◌++◌, length, select, Bool-cases, inl,
  inr, subst, sym, ap, ◌∙◌, if◌then◌else◌,
}
use bid_pilot.Canonical.Clean.{Text, same_text, is_in}
use bid_pilot.Canonical.Texts.{same_text_comm, same_text-eq, IsDistinct, IsDistinct-concat}
use bid_pilot.Dedupe.Names.{Unicode, normalize_text}
use bid_pilot.Dedupe.Similar.{
  Floats, distinct_from, trigrams, windows, common, jaccard, trigram_similarity,
}

distinct_from-IsDistinct : (out ts : List Text) → IsDistinct out → IsDistinct (distinct_from out ts)
unfolding distinct_from
distinct_from-IsDistinct out [] u = u
distinct_from-IsDistinct out (t ∷ ts) u = elim (Bool-cases (is_in out t)) [
  | inl e ↦ rw e (distinct_from-IsDistinct out ts u)
  | inr e ↦ rw e (distinct_from-IsDistinct (out ++ t ∷ []) ts (IsDistinct-concat out t u e))
]

count : Text → List Text → ℕ
count t xs = length (select (same_text t) xs)

pairs : List Text → List Text → ℕ
pairs [] b = 0
pairs (x ∷ a) b = count x b + pairs a b

count-cons :
    (t x : Text) (xs : List Text) → count t (x ∷ xs) ≡ (if same_text t x then 1 else 0) + count t xs
unfolding count
count-cons t x xs = ground arith

pairs-cons : (a : List Text) (y : Text) (b : List Text) → pairs a (y ∷ b) ≡ count y a + pairs a b
unfolding pairs count
pairs-cons [] y b = omega arith
pairs-cons (x ∷ a) y b = ground (arith, pairs-cons a y b, same_text_comm x y)

pairs-nil : (a : List Text) → pairs a [] ≡ 0
unfolding pairs count
pairs-nil [] = refl
pairs-nil (x ∷ a) = ground (arith, pairs-nil a)

pairs_comm : (a b : List Text) → pairs a b ≡ pairs b a
unfolding pairs
pairs_comm [] b = sym (pairs-nil b)
pairs_comm (x ∷ a) b = omega (arith, pairs_comm a b, pairs-cons b x a)

count-absent : (t : Text) (xs : List Text) → is_in xs t ≡ false → count t xs ≡ 0
unfolding count
count-absent t [] h = refl
count-absent t (x ∷ xs) h = ground (arith, count-absent t xs)

count-IsDistinct :
    (t : Text) (xs : List Text) → IsDistinct xs → count t xs ≡ (if is_in xs t then 1 else 0)
unfolding count
count-IsDistinct t [] u = refl
count-IsDistinct t (x ∷ xs) u = elim (Bool-cases (same_text t x)) [
  | inl e ↦
      rw e (
        ap suc (count-absent t xs (subst (λ k. is_in xs k ≡ false) (sym (same_text-eq t x e)) u.0)))
  | inr e ↦ rw e (count-IsDistinct t xs u.1)
]

common-pairs : (a b : List Text) → IsDistinct b → common a b ≡ pairs a b
unfolding pairs
common-pairs [] b u = refl
common-pairs (x ∷ a) b u = ground (arith, common-pairs a b u, count-IsDistinct x b u)

pub common_comm : (a b : List Text) → IsDistinct a → IsDistinct b → common a b ≡ common b a
common_comm a b u v = common-pairs a b v ∙ pairs_comm a b ∙ sym (common-pairs b a u)

windows-IsDistinct :
    (text : Text)
    → IsDistinct (elim text [
      | [] ↦ []
      | c ∷ cs ↦ distinct_from [] (windows (32 ∷ 32 ∷ (c ∷ cs) ++ 32 ∷ []))
    ])
windows-IsDistinct [] = tt
windows-IsDistinct (c ∷ cs) =
    distinct_from-IsDistinct [] (windows (32 ∷ 32 ∷ (c ∷ cs) ++ 32 ∷ [])) tt

trigrams-IsDistinct : (u : Unicode) (text : Text) → IsDistinct (trigrams u text)
unfolding trigrams
trigrams-IsDistinct u text = windows-IsDistinct (normalize_text u (some text))

ratio-congr : {F : Type 0} (f : Floats F) (k j m n : ℕ) → k ≡ j → m ≡ n → f.ratio k m ≡ f.ratio j n
ratio-congr f k j m n h e = cc

jaccard_comm :
    {F : Type 0} (f : Floats F) (a b : List Text)
    → IsDistinct a
    → IsDistinct b
    → jaccard f a b ≡ jaccard f b a
jaccard_comm f [] [] u v = refl
jaccard_comm f [] (y ∷ b) u v = refl
jaccard_comm f (x ∷ a) [] u v = refl
jaccard_comm f (x ∷ a) (y ∷ b) u v =
    let same : common (x ∷ a) (y ∷ b) ≡ common (y ∷ b) (x ∷ a) = common_comm (x ∷ a) (y ∷ b) u v in
    ratio-congr f (common (x ∷ a) (y ∷ b)) (common (y ∷ b) (x ∷ a)) _ _ same (omega arith)

pub trigram_similarity_comm :
    {F : Type 0} (f : Floats F) (u : Unicode) (l r : Text)
    → trigram_similarity f u l r ≡ trigram_similarity f u r l
unfolding trigram_similarity
trigram_similarity_comm f u l r =
    jaccard_comm f (trigrams u l) (trigrams u r) (trigrams-IsDistinct u l) (trigrams-IsDistinct u r)
