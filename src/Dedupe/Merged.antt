-- ===== src/Dedupe/Merged.antt =====
-- What a merge keeps (dedupe.py: `merge`).
use bid_pilot.Prelude.{
  ℕ, ◌≤◌, ◌≡◌, refl, true, arith, String, Option, none, some, List, [], ◌∷◌, ◌++◌, elem, not, All,
  All-imp, IsUnique, IsUnique-concat, elem-append, map, map-append, select, ltb, Bool-cases, inl,
  inr, str_eq, eq_refl, ◌||◌, eq_iff, subst, sym, ap,
}
use bid_pilot.Canonical.{CanonicalNotice, SourceRef, source_refs}
use bid_pilot.Dedupe.Verdict.{external_ids, ref_key}
use bid_pilot.Dedupe.Merge.{
  merge, unique, unique_from, longer_title, earliest, merge_dates, text_length, new_refs, filled,
}

elem-same : (s t : String) (xs : List String) → str_eq s t ≡ true → elem s xs ≡ elem t xs
elem-same s t xs e = ap (λ k. elem k xs) ((eq_iff s t).0 e)

-- The keys that `new_refs` skips are known.
elem-kept :
    (known : List String) (s : String) (refs : List SourceRef)
    → elem s (map ref_key refs) ≡ true
    → (elem s known || elem s (map ref_key (select (λ ref. not (elem (ref_key ref) known)) refs)))
      ≡ true
elem-kept known s [] h = cc
elem-kept known s (r ∷ rs) h = elim (Bool-cases (elem (ref_key r) known)) [
  | inl e ↦ rw e (ground (arith, elem-same (ref_key r) s known, elem-kept known s rs))
  | inr e ↦ rw e (ground (arith, elem-kept known s rs))
]

module _ {Amount : Type 0} (canonical incoming : CanonicalNotice Amount) where
  external_ids-merge :
      external_ids (merge canonical incoming)
      ≡ external_ids canonical ++ map ref_key (new_refs canonical incoming)
  unfolding merge
  external_ids-merge = map-append ref_key (source_refs canonical) (new_refs canonical incoming)

  -- A key of either notice is a key of the merged one.
  pub elem-merge :
      (s : String)
      → (elem s (external_ids canonical) || elem s (external_ids incoming)) ≡ true
      → elem s (external_ids (merge canonical incoming)) ≡ true
  elem-merge s h =
      subst (λ keys. elem s keys ≡ true) (sym external_ids-merge)
        (ground (
          arith,
          elem-append s (external_ids canonical) (map ref_key (new_refs canonical incoming)),
          elem-kept (external_ids canonical) s (source_refs incoming),
        ))

-- Every key of `of` is a key of the list.
abbrev pub HasKeys : List String → List String → Type 0
HasKeys keys of = All (λ s. elem s keys ≡ true) of

HasKeys-cons : (s : String) (keys of : List String) → HasKeys keys of → HasKeys (s ∷ keys) of
HasKeys-cons s keys of =
    All-imp (λ t. elem t keys ≡ true) (λ t. elem t (s ∷ keys) ≡ true) (λ t h. ground arith) of

pub HasKeys-refl : (keys : List String) → HasKeys keys keys
HasKeys-refl [] = tt
HasKeys-refl (s ∷ keys) = (ground (arith, eq_refl s), HasKeys-cons s keys keys (HasKeys-refl keys))

-- The loop of `dict.fromkeys` keeps what it has, adds what it reads, and repeats nothing.
unique_from-known :
    (out ss : List String) (s : String)
    → (elem s out || elem s ss) ≡ true
    → elem s (unique_from out ss) ≡ true
unfolding unique_from
unique_from-known out [] s h = ground arith
unique_from-known out (t ∷ ts) s h = elim (Bool-cases (elem t out)) [
  | inl e ↦ rw e (unique_from-known out ts s (ground (arith, elem-same t s out)))
  | inr e ↦
      rw e (unique_from-known (out ++ t ∷ []) ts s (ground (arith, elem-append s out (t ∷ []))))
]

unique_from-IsUnique : (out ss : List String) → IsUnique out → IsUnique (unique_from out ss)
unfolding unique_from
unique_from-IsUnique out [] u = u
unique_from-IsUnique out (t ∷ ts) u = elim (Bool-cases (elem t out)) [
  | inl e ↦ rw e (unique_from-IsUnique out ts u)
  | inr e ↦ rw e (unique_from-IsUnique (out ++ t ∷ []) ts (IsUnique-concat out t u e))
]

unique-HasKeys : (xs ys : List String) → HasKeys (unique (xs ++ ys)) (xs ++ ys)
unfolding unique
unique-HasKeys xs ys =
    All-imp (λ s. elem s (xs ++ ys) ≡ true) (λ s. elem s (unique_from [] (xs ++ ys)) ≡ true)
      (λ s h. unique_from-known [] (xs ++ ys) s (ground arith)) (xs ++ ys) (HasKeys-refl (xs ++ ys))

-- A value that is known stays.
abbrev pub Stands : {A : Type 0} → Option A → Option A → Type 0
Stands none b = Unit
Stands (some a) b = b ≡ some a

-- The first of two times is not after the second; a missing time is after all.
abbrev pub NotAfter : Option ℕ → Option ℕ → Type 0
NotAfter a none = Unit
NotAfter none (some b) = ⊥
NotAfter (some a) (some b) = a ≤ b

filled-Stands : {A : Type 0} (a b : Option A) → Stands a (filled a b)
filled-Stands none b = tt
filled-Stands (some a) b = refl

earliest-NotAfter : (a b : Option ℕ) → NotAfter (earliest a b) a × NotAfter (earliest a b) b
unfolding earliest
earliest-NotAfter none none = (tt, tt)
earliest-NotAfter none (some t) = (tt, omega arith)
earliest-NotAfter (some m) none = (omega arith, tt)
earliest-NotAfter (some m) (some t) = elim (Bool-cases (ltb t m)) [
  | inl e ↦ rw e (ground arith, omega arith)
  | inr e ↦ rw e (omega arith, ground arith)
]

longer_title-le :
    (a b : String)
    → (text_length a ≤ text_length (longer_title a b))
      × (text_length b ≤ text_length (longer_title a b))
unfolding longer_title
longer_title-le a b = elim (Bool-cases (ltb (text_length a) (text_length b))) [
  | inl e ↦ rw e (ground arith, omega arith)
  | inr e ↦ rw e (omega arith, ground arith)
]

module _ {Amount : Type 0} where
  -- What the merge `m` of a cluster's notice and an incoming one has of both.
  pub record Absorbed (canonical incoming m : CanonicalNotice Amount) : Type 0 where
    pub mine : HasKeys (external_ids m) (external_ids canonical)
    pub theirs : HasKeys (external_ids m) (external_ids incoming)
    pub cpv : HasKeys m.cpv (canonical.cpv ++ incoming.cpv) × IsUnique m.cpv
    pub nuts : HasKeys m.nuts (canonical.nuts ++ incoming.nuts) × IsUnique m.nuts
    pub published :
        NotAfter m.dates.published_at canonical.dates.published_at
        × NotAfter m.dates.published_at incoming.dates.published_at
    pub deadline : Stands canonical.dates.deadline_at m.dates.deadline_at
    pub title :
        (text_length canonical.title ≤ text_length m.title)
        × (text_length incoming.title ≤ text_length m.title)

  HasKeys-merge :
      (canonical incoming : CanonicalNotice Amount) (keys : List String)
      → ((s : String)
          → elem s keys ≡ true
          → elem s (external_ids (merge canonical incoming)) ≡ true)
      → HasKeys (external_ids (merge canonical incoming)) keys
  HasKeys-merge canonical incoming keys k =
      All-imp (λ s. elem s keys ≡ true)
        (λ s. elem s (external_ids (merge canonical incoming)) ≡ true) k keys (HasKeys-refl keys)

  -- A merge keeps every source reference of both notices and all their CPV and NUTS codes, each code
  -- once. It is published no later than either, has a title at least as long as either title, and keeps
  -- a deadline that the cluster's notice has.
  pub merge-Absorbed :
      (canonical incoming : CanonicalNotice Amount)
      → Absorbed canonical incoming (merge canonical incoming)
  unfolding merge unique merge_dates
  merge-Absorbed a b = record {
    mine = HasKeys-merge a b (external_ids a) (λ s h. elem-merge a b s (ground arith));
    theirs = HasKeys-merge a b (external_ids b) (λ s h. elem-merge a b s (ground arith));
    cpv = (unique-HasKeys a.cpv b.cpv, unique_from-IsUnique [] (a.cpv ++ b.cpv) tt);
    nuts = (unique-HasKeys a.nuts b.nuts, unique_from-IsUnique [] (a.nuts ++ b.nuts) tt);
    published = earliest-NotAfter a.dates.published_at b.dates.published_at;
    deadline = filled-Stands a.dates.deadline_at b.dates.deadline_at;
    title = longer_title-le a.title b.title;
  }
