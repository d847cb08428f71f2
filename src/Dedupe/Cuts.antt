-- ===== src/Dedupe/Cuts.antt =====
-- What the loop that strips a buyer's name takes away (dedupe.py: `normalize_buyer_name`).
use bid_pilot.Prelude.{
  suc, ◌≡◌, refl, ap, subst, ◌+◌, ==_iff, Bool, true, arith, Option, none, some, List, [], ◌∷◌,
  ◌++◌, All, length, Bool-cases, inl, inr,
}
use bid_pilot.Canonical.Clean.{Text, same_text, is_in}
use bid_pilot.Canonical.Texts.{same_text-eq, same_text_refl}
use bid_pilot.Matching.Filters.{starts_with}
use bid_pilot.Dedupe.Names.{
  drop, without_suffix, cut_prefix, cut_suffix, left_of, Sweep, returned, swept, sweep,
}

-- A text cut down to another, one phrase with its space at a time.
pub data Cuts (noises : List Text) : Text → Text → Type 0 where
  whole : (t : Text) → Cuts noises t t
  front :
      (t noise rest r : Text)
      → is_in noises noise ≡ true
      → t ≡ noise ++ 32 ∷ rest
      → Cuts noises rest r
      → Cuts noises t r
  back :
      (t noise rest r : Text)
      → is_in noises noise ≡ true
      → t ≡ rest ++ 32 ∷ noise
      → Cuts noises rest r
      → Cuts noises t r

pub Cuts-trans :
    {noises : List Text} {a b c : Text} → Cuts noises a b → Cuts noises b c → Cuts noises a c
Cuts-trans (whole t) k = k
Cuts-trans (front t noise rest r known e h) k = front t noise rest _ known e (Cuts-trans h k)
Cuts-trans (back t noise rest r known e h) k = back t noise rest _ known e (Cuts-trans h k)

pub known_to_itself : (xs : List Text) → All (λ x. is_in xs x ≡ true) xs
known_to_itself [] = tt
known_to_itself (x ∷ xs) = (ground (arith, same_text_refl x), later xs (known_to_itself xs))
  where
    later :
        (ys : List Text) → All (λ y. is_in xs y ≡ true) ys → All (λ y. is_in (x ∷ xs) y ≡ true) ys
    later [] h = tt
    later (y ∷ ys) h = (ground (arith, h.0), later ys h.1)

starts_with-split :
    (noise t : Text)
    → starts_with t (noise ++ 32 ∷ []) ≡ true
    → t ≡ noise ++ 32 ∷ drop (length noise + 1) t
unfolding starts_with
starts_with-split [] [] h = cc
starts_with-split [] (c ∷ cs) h =
    let first : c ≡ 32 = (==_iff c 32).0 (ground arith) in rw first refl
starts_with-split (p ∷ ps) [] h = cc
starts_with-split (p ∷ ps) (c ∷ cs) h =
    let first : c ≡ p = (==_iff c p).0 (ground arith) in
    let rest = starts_with-split ps cs (ground arith) in
    let count : suc (length ps + 1) ≡ suc (length ps) + 1 = omega arith in
    subst (λ n. c ∷ cs ≡ p ∷ ps ++ 32 ∷ drop n (c ∷ cs)) count (rw first (ap (λ xs. p ∷ xs) rest))

without_suffix-split : (suffix t x : Text) → without_suffix suffix t ≡ some x → t ≡ x ++ suffix
unfolding without_suffix
without_suffix-split suffix [] x h = elim (Bool-cases (same_text [] suffix)) [
  | inl e ↦ let none_left : x ≡ [] = cc (rw e at h) in rw none_left (same_text-eq [] suffix e)
  | inr e ↦ cc (rw e at h)
]
without_suffix-split suffix (c ∷ cs) x h = elim (Bool-cases (same_text (c ∷ cs) suffix)) [
  | inl e ↦ let none_left : x ≡ [] = cc (rw e at h) in rw none_left (same_text-eq (c ∷ cs) suffix e)
  | inr e ↦ longer (without_suffix suffix cs) (without_suffix-split suffix cs) refl (rw e at h)
]
  where
    longer :
        (o : Option Text)
        → ((y : Text) → without_suffix suffix cs ≡ some y → cs ≡ y ++ suffix)
        → without_suffix suffix cs ≡ o
        → elim o [ none ↦ none | some y ↦ some (c ∷ y) ] ≡ some x
        → c ∷ cs ≡ x ++ suffix
    longer none split e k = cc
    longer (some y) split e k =
        let same : c ∷ y ≡ x = cc in
        subst (λ z. c ∷ cs ≡ z ++ suffix) same (ap (λ z. c ∷ z) (split y e))

cut_prefix-Cuts :
    (noises : List Text) (noise t : Text) (b : Bool)
    → is_in noises noise ≡ true
    → Cuts noises t (cut_prefix noise (t, b)).0
unfolding cut_prefix
cut_prefix-Cuts noises noise t b known = elim (Bool-cases (starts_with t (noise ++ 32 ∷ []))) [
  | inl e ↦ rw e (
      front t noise (drop (length noise + 1) t) _ known (starts_with-split noise t e)
        (whole (drop (length noise + 1) t)))
  | inr e ↦ rw e (whole t)
]

left_of-Cuts :
    (noises : List Text) (noise t : Text) (b : Bool) (o : Option Text)
    → is_in noises noise ≡ true
    → without_suffix (32 ∷ noise) t ≡ o
    → Cuts noises t (left_of (t, b) o).0
unfolding left_of
left_of-Cuts noises noise t b none known e = whole t
left_of-Cuts noises noise t b (some x) known e =
    back t noise x x known (without_suffix-split (32 ∷ noise) t x e) (whole x)

cut_suffix-Cuts :
    (noises : List Text) (noise t : Text) (b : Bool)
    → is_in noises noise ≡ true
    → Cuts noises t (cut_suffix noise (t, b)).0
unfolding cut_suffix
cut_suffix-Cuts noises noise t b known =
    left_of-Cuts noises noise t b (without_suffix (32 ∷ noise) t) known refl

-- What a sweep ends with was cut from the text it began with.
abbrev pub CutTo : List Text → Text → Sweep → Type 0
CutTo noises t (returned r) = Cuts noises t r
CutTo noises t (swept (r, d)) = Cuts noises t r

CutTo-after :
    (noises : List Text) (t x : Text) (s : Sweep)
    → Cuts noises t x
    → CutTo noises x s
    → CutTo noises t s
CutTo-after noises t x (returned r) c h = Cuts-trans c h
CutTo-after noises t x (swept (r, d)) c h = Cuts-trans c h

pub sweep-CutTo :
    (all left : List Text)
    → All (λ x. is_in all x ≡ true) left
    → (t : Text) (b : Bool) → CutTo all t (sweep left (t, b))
unfolding sweep
sweep-CutTo all [] known t b = whole t
sweep-CutTo all (noise ∷ noises) known t b = elim (Bool-cases (same_text t noise)) [
  | inl e ↦ rw e (whole t)
  | inr e ↦
      let p : Text × Bool = cut_prefix noise (t, b) in
      let q : Text × Bool = cut_suffix noise p in
      rw e (
        CutTo-after all t q.0 (sweep noises q)
          (Cuts-trans (cut_prefix-Cuts all noise t b known.0)
            (cut_suffix-Cuts all noise p.0 p.1 known.0))
          (sweep-CutTo all noises known.1 q.0 q.1))
]
