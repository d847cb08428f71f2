-- ===== src/Dedupe/Similar.antt =====
-- The two measures of similarity (dedupe.py: `trigrams`, `trigram_similarity`, `cosine_similarity`).
-- The operations of floating-point numbers are an argument.
use bid_pilot.Prelude.{
  ℕ, ◌+◌, ◌-◌, ◌==◌, Bool, ◌||◌, some, List, [], ◌∷◌, ◌++◌, length, select, if◌then◌else◌,
}
use bid_pilot.Canonical.Clean.{Text, is_in}
use bid_pilot.Dedupe.Names.{Unicode, normalize_text}

-- `ratio a b` is the quotient of two integers, and so the literals too. `lt` and `le` are `<` and `<=`.
pub record Floats (F : Type 0) : Type 0 where
  pub ratio : ℕ → ℕ → F
  pub add : F → F → F
  pub sub : F → F → F
  pub mul : F → F → F
  pub div : F → F → F
  pub neg : F → F
  pub root : F → F
  pub lt : F → F → Bool
  pub le : F → F → Bool
  pub equal : F → F → Bool
  pub round3 : F → F
  -- Python's `sum` of floats, which newer versions compensate
  pub sum : List F → F

-- The distinct elements, in the order of their first occurrence.
unfoldable pub distinct_from : List Text → List Text → List Text
distinct_from out [] = out
distinct_from out (t ∷ ts) =
    let kept = distinct_from (out ++ t ∷ []) ts in
    let known = distinct_from out ts in if is_in out t then known else kept

-- `padded[i : i + 3]` for every `i` in `range(len(padded) - 2)`
unfoldable pub windows : Text → List Text
windows (a ∷ b ∷ c ∷ cs) = (a ∷ b ∷ c ∷ []) ∷ windows (b ∷ c ∷ cs)
windows _ = []

unfoldable pub trigrams : Unicode → Text → List Text
unfolding normalize_text windows distinct_from
trigrams u text = elim (normalize_text u (some text)) [
  | [] ↦ []
  | c ∷ cs ↦ distinct_from [] (windows (32 ∷ 32 ∷ (c ∷ cs) ++ 32 ∷ []))
]

-- `len(a & b)`, of sets
abbrev pub common : List Text → List Text → ℕ
common a b = length (select (is_in b) a)

module _ {F : Type 0} (f : Floats F) where
  abbrev pub jaccard : List Text → List Text → F
  jaccard [] b = f.ratio 0 1
  jaccard a [] = f.ratio 0 1
  jaccard a b = f.ratio (common a b) (length a + length b - common a b)

  unfoldable pub trigram_similarity : Unicode → Text → Text → F
  unfolding trigrams
  trigram_similarity u left right = jaccard (trigrams u left) (trigrams u right)

  unfoldable pub products : List F → List F → List F
  products (x ∷ xs) (y ∷ ys) = f.mul x y ∷ products xs ys
  products _ _ = []

  -- `max(-1.0, min(1.0, x))`
  unfoldable pub clamp : F → F
  clamp x =
      let low = if f.lt x (f.ratio 1 1) then x else f.ratio 1 1 in
      if f.lt (f.neg (f.ratio 1 1)) low then low else f.neg (f.ratio 1 1)

  unfoldable pub norm : List F → F
  unfolding products
  norm xs = f.root (f.sum (products xs xs))

  unfoldable pub cosine_of : List F → List F → F
  unfolding norm clamp products
  cosine_of xs ys =
      if f.equal (norm xs) (f.ratio 0 1) || f.equal (norm ys) (f.ratio 0 1)
      then f.ratio 0 1
      else clamp (f.div (f.sum (products xs ys)) (f.mul (norm xs) (norm ys)))

  unfoldable pub cosine_similarity : List F → List F → F
  unfolding cosine_of
  cosine_similarity [] ys = f.ratio 0 1
  cosine_similarity xs [] = f.ratio 0 1
  cosine_similarity (x ∷ xs) (y ∷ ys) =
      if length xs == length ys then cosine_of (x ∷ xs) (y ∷ ys) else f.ratio 0 1
