-- ===== src/Dedupe/Symmetric.antt =====
-- The verdict does not depend on which notice came first (dedupe.py: `same_tender`).
use bid_pilot.Prelude.{
  ℕ, ◌≡◌, refl, ◌*◌, Bool, ◌||◌, arith, Option, none, some, List, [], ◌∷◌, any, any-false, sym,
  str_eq, str_eq_comm,
}
use bid_pilot.Store.{second}
use bid_pilot.Scheduler.Text.{codes}
use bid_pilot.Canonical.{CanonicalNotice, NoticeType, planning, competition, result, same_type}
use bid_pilot.Canonical.Clean.{same_text}
use bid_pilot.Dedupe.Names.{Unicode}
use bid_pilot.Dedupe.Similar.{Floats, cosine_similarity, cosine_of, products, norm}
use bid_pilot.Canonical.Texts.{same_text_comm}
use bid_pilot.Dedupe.Counted.{trigram_similarity_comm}
use bid_pilot.Dedupe.Verdict.{
  BuyerKey, siren, name, same_key, within, same_tender, embedding_verdict, external_ids,
  cross_references, buyer_key,
}

any-or :
    {A : Type 0} (p : A → A → Bool)
    → ((x y : A) → p x y ≡ p y x)
    → (x : A) (xs ys : List A)
    → any (λ y. any (p y) (x ∷ xs)) ys ≡ any (p x) ys || any (λ y. any (p y) xs) ys
any-or p k x xs [] = refl
any-or p k x xs (y ∷ ys) = ground (arith, k x y, any-or p k x xs ys)

-- Whether two lists have an element that a symmetric test relates does not depend on their order.
any-swap :
    {A : Type 0} (p : A → A → Bool)
    → ((x y : A) → p x y ≡ p y x)
    → (xs ys : List A) → any (λ x. any (p x) ys) xs ≡ any (λ y. any (p y) xs) ys
any-swap p k [] ys = sym (any-false (λ y. any (p y) []) (λ y. refl) ys)
any-swap p k (x ∷ xs) ys = ground (arith, any-or p k x xs ys, any-swap p k xs ys)

same_type_comm : (a b : NoticeType) → same_type a b ≡ same_type b a
unfolding same_type
same_type_comm planning planning = refl
same_type_comm planning competition = refl
same_type_comm planning result = refl
same_type_comm competition planning = refl
same_type_comm competition competition = refl
same_type_comm competition result = refl
same_type_comm result planning = refl
same_type_comm result competition = refl
same_type_comm result result = refl

same_key_comm : (a b : Option BuyerKey) → same_key a b ≡ same_key b a
unfolding same_key
same_key_comm none none = refl
same_key_comm none (some (siren y)) = refl
same_key_comm none (some (name y)) = refl
same_key_comm (some (siren x)) none = refl
same_key_comm (some (name x)) none = refl
same_key_comm (some (siren x)) (some (siren y)) = same_text_comm x y
same_key_comm (some (siren x)) (some (name y)) = refl
same_key_comm (some (name x)) (some (siren y)) = refl
same_key_comm (some (name x)) (some (name y)) = same_text_comm x y

within_comm : (tolerance : ℕ) (a b : Option ℕ) → within tolerance a b ≡ within tolerance b a
unfolding within
within_comm tolerance none none = refl
within_comm tolerance none (some t) = refl
within_comm tolerance (some s) none = refl
within_comm tolerance (some s) (some t) = ground arith

module _ {F : Type 0} (f : Floats F) (mul_comm : (x y : F) → f.mul x y ≡ f.mul y x) where
  products_comm : (xs ys : List F) → products f xs ys ≡ products f ys xs
  unfolding products
  products_comm [] [] = refl
  products_comm [] (y ∷ ys) = refl
  products_comm (x ∷ xs) [] = refl
  products_comm (x ∷ xs) (y ∷ ys) = rw (mul_comm x y, products_comm xs ys) refl

  cosine_of_comm : (xs ys : List F) → cosine_of f xs ys ≡ cosine_of f ys xs
  unfolding cosine_of
  cosine_of_comm xs ys = ground (arith, products_comm xs ys, mul_comm (norm f xs) (norm f ys))

  cosine_similarity_comm : (xs ys : List F) → cosine_similarity f xs ys ≡ cosine_similarity f ys xs
  unfolding cosine_similarity
  cosine_similarity_comm [] [] = refl
  cosine_similarity_comm [] (y ∷ ys) = refl
  cosine_similarity_comm (x ∷ xs) [] = refl
  cosine_similarity_comm (x ∷ xs) (y ∷ ys) = ground (arith, cosine_of_comm (x ∷ xs) (y ∷ ys))

  module _ {Amount : Type 0} (u : Unicode) where
    embedding_verdict_comm :
        (a b : Option (List F)) (l r : CanonicalNotice Amount)
        → embedding_verdict u f a b l r ≡ embedding_verdict u f b a r l
    unfolding embedding_verdict
    embedding_verdict_comm none none l r = refl
    embedding_verdict_comm none (some []) l r = refl
    embedding_verdict_comm none (some (y ∷ ys)) l r = refl
    embedding_verdict_comm (some []) none l r = refl
    embedding_verdict_comm (some []) (some []) l r = refl
    embedding_verdict_comm (some []) (some (y ∷ ys)) l r = refl
    embedding_verdict_comm (some (x ∷ xs)) none l r = refl
    embedding_verdict_comm (some (x ∷ xs)) (some []) l r = refl
    embedding_verdict_comm (some (x ∷ xs)) (some (y ∷ ys)) l r = ground (
      arith,
      str_eq_comm l.country r.country,
      cosine_similarity_comm (x ∷ xs) (y ∷ ys),
      within_comm (86400 * second) l.dates.deadline_at r.dates.deadline_at,
    )

    -- The verdict on two notices, with its reason and its confidence, is the verdict on them in the
    -- other order, if the multiplication of floating-point numbers is commutative.
    pub same_tender_comm :
        (a b : Option (List F)) (l r : CanonicalNotice Amount)
        → same_tender u f a b l r ≡ same_tender u f b a r l
    unfolding same_tender
    same_tender_comm a b l r = ground (
      arith,
      same_type_comm l.notice_type r.notice_type,
      any-swap (λ x y. str_eq y x) (λ x y. str_eq_comm y x) (external_ids l) (external_ids r),
      any-swap same_text same_text_comm (cross_references u l) (cross_references u r),
      same_key_comm (buyer_key u l) (buyer_key u r),
      within_comm (3600 * second) l.dates.deadline_at r.dates.deadline_at,
      trigram_similarity_comm f u (codes l.title) (codes r.title),
      embedding_verdict_comm a b l r,
    )
