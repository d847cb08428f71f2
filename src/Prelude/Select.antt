-- ===== src/Prelude/Select.antt =====
-- Boolean searches and filters of lists (Python's `any`, `all`, `in` and comprehensions), and SQL's
-- conditional update.
use Prim.Native.Nat.{ℕ, zero, suc}
use mathlib.Core.Logic.{◌⊎◌, inl, inr}
use Prim.Native.String.{String}
use mathlib.Core.Path.{◌≡◌, refl, ap}
use mathlib.Core.Bool.{Bool, true, false, ◌&&◌, ◌||◌}
use mathlib.Core.List.{List, [], ◌∷◌, ◌++◌, map}
use mathlib.Core.Option.{Option, none, some}
use native.Mathlib.Omega.{arith}
use text.Mathlib.Text.{◌==◌ as str_eq}
use text.Mathlib.TextEquality.{eq_iff}
use bid_pilot.Prelude.Tests.{if◌then◌else◌, Bool-cases}
use bid_pilot.Prelude.Lists.{length, take, All}

module _ {ℓ} {A : Type ℓ} where
  abbrev pub any : (A → Bool) → List A → Bool
  any p [] = false
  any p (x ∷ xs) = p x || any p xs

  abbrev pub all : (A → Bool) → List A → Bool
  all p [] = true
  all p (x ∷ xs) = p x && all p xs

  -- `[x for x in xs if p(x)]`
  abbrev pub select : (A → Bool) → List A → List A
  select p [] = []
  select p (x ∷ xs) = let rest = select p xs in if p x then x ∷ rest else rest

  -- The first row that a query finds.
  abbrev pub find : (A → Bool) → List A → Option A
  find p [] = none
  find p (x ∷ xs) = let rest = find p xs in if p x then some x else rest

  -- `UPDATE … SET f WHERE p`
  abbrev pub update_where : (A → Bool) → (A → A) → List A → List A
  update_where p f [] = []
  update_where p f (x ∷ xs) = (if p x then f x else x) ∷ update_where p f xs

  pub any-append : (p : A → Bool) (xs ys : List A) → any p (xs ++ ys) ≡ any p xs || any p ys
  any-append p [] ys = refl
  any-append p (x ∷ xs) ys = ground (arith, any-append p xs ys)

  pub length-update_where :
      (p : A → Bool) (f : A → A) (xs : List A) → length (update_where p f xs) ≡ length xs
  length-update_where p f [] = refl
  length-update_where p f (x ∷ xs) = ap suc (length-update_where p f xs)

  All-cons_if {κ} :
      (P : A → Type κ) (b : Bool) (x : A) (xs : List A)
      → P x
      → All P xs
      → All P (if b then x ∷ xs else xs)
  All-cons_if P true x xs h k = (h, k)
  All-cons_if P false x xs h k = k

  pub All-select {κ} :
      (P : A → Type κ) (p : A → Bool) (xs : List A) → All P xs → All P (select p xs)
  All-select P p [] h = tt
  All-select P p (x ∷ xs) h = All-cons_if P (p x) x (select p xs) h.0 (All-select P p xs h.1)

  pub All-selected : (p : A → Bool) (xs : List A) → All (λ x. p x ≡ true) (select p xs)
  All-selected p [] = tt
  All-selected p (x ∷ xs) = elim (Bool-cases (p x)) [
    | inl e ↦ rw e (e, All-selected p xs)
    | inr e ↦ rw e (All-selected p xs)
  ]

  pub any-imp :
      (p q : A → Bool)
      → ((x : A) → p x ≡ true → q x ≡ true)
      → (xs : List A) → any p xs ≡ true
      → any q xs ≡ true
  any-imp p q k [] h = h
  any-imp p q k (x ∷ xs) h = ground (arith, k x, any-imp p q k xs)

  pub any_witness : (p : A → Bool) (xs : List A) → any p xs ≡ true → (x : A) × (p x ≡ true)
  any_witness p [] h = cc
  any_witness p (x ∷ xs) h = elim (Bool-cases (p x)) [
    | inl e ↦ (x, e)
    | inr e ↦ any_witness p xs (rw e at h)
  ]

  pub any-false : (p : A → Bool) → ((x : A) → p x ≡ false) → (xs : List A) → any p xs ≡ false
  any-false p k [] = refl
  any-false p k (x ∷ xs) = ground (arith, k x, any-false p k xs)

  pub any-select : (q p : A → Bool) (xs : List A) → any q (select p xs) ≡ any (λ x. p x && q x) xs
  any-select q p [] = refl
  any-select q p (x ∷ xs) = ground (arith, any-select q p xs)

  pub any-take : (q : A → Bool) (n : ℕ) (xs : List A) → any q (take n xs) ≡ true → any q xs ≡ true
  any-take q zero xs h = cc
  any-take q (suc n) [] h = h
  any-take q (suc n) (x ∷ xs) h = ground (arith, any-take q n xs)

  pub any-update_where :
      (q p : A → Bool) (f : A → A) (xs : List A)
      → any q (update_where p f xs) ≡ any (λ x. q (if p x then f x else x)) xs
  any-update_where q p f [] = refl
  any-update_where q p f (x ∷ xs) = ground (arith, any-update_where q p f xs)

  pub All-update_where {κ} :
      (P : A → Type κ) (p : A → Bool) (f : A → A)
      → ((x : A) → P x → p x ≡ true → P (f x))
      → (xs : List A) → All P xs
      → All P (update_where p f xs)
  All-update_where P p f k [] h = tt
  All-update_where P p f k (x ∷ xs) h = (step (Bool-cases (p x)), All-update_where P p f k xs h.1)
    where
      step : ((p x ≡ true) ⊎ (p x ≡ false)) → P (if p x then f x else x)
      step (inl e) = rw e (k x h.0 e)
      step (inr e) = rw e h.0

module _ {ℓ κ} {A : Type ℓ} {B : Type κ} where
  pub any-map : (q : B → Bool) (f : A → B) (xs : List A) → any q (map f xs) ≡ any (λ x. q (f x)) xs
  any-map q f [] = refl
  any-map q f (x ∷ xs) = ground (arith, any-map q f xs)

  -- An update that keeps a column keeps the column of the whole table.
  pub map-update_where :
      (g : A → B) (p : A → Bool) (f : A → A)
      → ((x : A) → g (f x) ≡ g x)
      → (xs : List A) → map g (update_where p f xs) ≡ map g xs
  map-update_where g p f k [] = refl
  map-update_where g p f k (x ∷ xs) = ground (arith, k x, map-update_where g p f k xs)

-- `s in names`, on texts
abbrev pub elem : String → List String → Bool
elem s = any (λ t. str_eq t s)

-- No text stands twice in the list.
abbrev pub IsUnique : List String → Type 0
IsUnique [] = Unit
IsUnique (s ∷ ss) = (elem s ss ≡ false) × IsUnique ss

pub elem-append : (s : String) (xs ys : List String) → elem s (xs ++ ys) ≡ elem s xs || elem s ys
elem-append s xs ys = any-append (λ t. str_eq t s) xs ys

pub str_eq_comm : (s t : String) → str_eq s t ≡ str_eq t s
str_eq_comm s t = ground (arith, eq_iff s t, eq_iff t s)

-- A list stays free of repetitions when a text that it lacks is put at its end.
pub IsUnique-concat :
    (xs : List String) (s : String) → IsUnique xs → elem s xs ≡ false → IsUnique (xs ++ s ∷ [])
IsUnique-concat [] s u absent = (refl, tt)
IsUnique-concat (x ∷ xs) s u absent = (
  ground (arith, elem-append x xs (s ∷ []), str_eq_comm x s),
  IsUnique-concat xs s u.1 (ground arith),
)
