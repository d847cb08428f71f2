-- ===== src/Matching/Accepted.antt =====
-- Which notices pass the hard filters (matching.py: `apply_hard_filters`).
use bid_pilot.Prelude.{
  ℕ, ◌+◌, ◌*◌, ◌≤◌, ◌≡◌, ◌≢◌, ◌↔◌, ◌⊎◌, inl, inr, refl, Bool, true, false, ◌&&◌, not, arith, String,
  Option, none, some, List, [], ◌∷◌, any, elem, if◌then◌else◌,
}
use bid_pilot.Store.{day}
use bid_pilot.Canonical.{CanonicalNotice, same_type}
use bid_pilot.Matching.Filters.{
  WatchFilters, pass, amount_out_of_range, country_excluded, cpv_mismatch, deadline_too_close,
  excluded_keyword_present, geography_excluded, notice_type_excluded, procedure_excluded,
  required_keyword_missing, apply_hard_filters, is_empty, cpv_matches, nuts_matches, is_too_close,
  is_out_of_range, is_procedure, haystack, names_any, all_cpv, all_places,
}

cons_ne_nil : {A : Type 0} (x : A) (xs : List A) → x ∷ xs ≢ []
cons_ne_nil x xs h = cc

guard_off :
    {A : Type 0} (xs : List A) (b : Bool)
    → (not (is_empty xs) && not b) ≡ false
    → (xs ≡ []) ⊎ (b ≡ true)
guard_off [] b h = inl refl
guard_off (x ∷ xs) b h = inr (ground arith)

guard_on :
    {A : Type 0} (xs : List A) (b : Bool)
    → (xs ≡ []) ⊎ (b ≡ true)
    → (not (is_empty xs) && not b) ≡ false
guard_on [] b h = refl
guard_on (x ∷ xs) b (inl e) = absurd (cons_ne_nil x xs e)
guard_on (x ∷ xs) b (inr e) = ground arith

-- Two lists that both are given, and a test that fails.
guards_off :
    {A B : Type 0} (xs : List A) (ys : List B) (b : Bool)
    → (not (is_empty xs) && not (is_empty ys) && not b) ≡ false
    → (xs ≡ []) ⊎ ((ys ≡ []) ⊎ (b ≡ true))
guards_off [] ys b h = inl refl
guards_off (x ∷ xs) [] b h = inr (inl refl)
guards_off (x ∷ xs) (y ∷ ys) b h = inr (inr (ground arith))

guards_on :
    {A B : Type 0} (xs : List A) (ys : List B) (b : Bool)
    → (xs ≡ []) ⊎ ((ys ≡ []) ⊎ (b ≡ true))
    → (not (is_empty xs) && not (is_empty ys) && not b) ≡ false
guards_on [] ys b h = refl
guards_on (x ∷ xs) [] b h = refl
guards_on (x ∷ xs) (y ∷ ys) b (inl e) = absurd (cons_ne_nil x xs e)
guards_on (x ∷ xs) (y ∷ ys) b (inr (inl e)) = absurd (cons_ne_nil y ys e)
guards_on (x ∷ xs) (y ∷ ys) b (inr (inr e)) = ground arith

-- The bounds in terms of the deadline, the amount and the procedure.
in_time :
    (least deadline_at : Option ℕ) (now : ℕ)
    → (is_too_close least deadline_at now ≡ false) ↔ (
        (days deadline : ℕ)
        → least ≡ some days
        → deadline_at ≡ some deadline
        → now + days * day ≤ deadline)
unfolding is_too_close
in_time none d now = ((λ h days deadline a b. cc), λ h. refl)
in_time (some m) none now = ((λ h days deadline a b. cc), λ h. refl)
in_time (some m) (some d) now =
    ((λ h days deadline a b. ground arith), λ h. ground (arith, h m d refl refl))

in_range :
    {Amount : Type 0} (below : Amount → Amount → Bool) (least most total : Option Amount)
    → (is_out_of_range below least most total ≡ false) ↔ (
        ((low amount : Amount) → least ≡ some low → total ≡ some amount → below amount low ≡ false)
        × ((high amount : Amount)
            → most ≡ some high
            → total ≡ some amount
            → below high amount ≡ false))
unfolding is_out_of_range
in_range below least most none = ((λ h. ((λ l a e f. cc), λ l a e f. cc)), λ h. refl)
in_range below none none (some t) = ((λ h. ((λ l a e f. cc), λ l a e f. cc)), λ h. refl)
in_range below (some low) none (some t) =
    ((λ h. ((λ l a e f. cc), λ l a e f. cc)), λ h. h.0 low t refl refl)
in_range below none (some high) (some t) =
    ((λ h. ((λ l a e f. cc), λ l a e f. cc)), λ h. h.1 high t refl refl)
in_range below (some low) (some high) (some t) = (
  (λ h. ((λ l a e f. ground arith), λ l a e f. ground arith)),
  λ h. ground (arith, h.0 low t refl refl, h.1 high t refl refl),
)

procedure_named :
    (p : Option String) (types : List String)
    → (is_procedure p types ≡ true) ↔ ((q : String) × (p ≡ some q) × (elem q types ≡ true))
unfolding is_procedure
procedure_named none types = ((λ h. cc), λ (q, e, h). cc)
procedure_named (some p) types = ((λ h. (p, refl, h)), λ (q, e, h). ground arith)

-- A chain of tests passes when every one fails.
abbrev AllFalse : (a b c d e f g h i : Bool) → Type 0
AllFalse a b c d e f g h i =
    (a ≡ false)
    × (b ≡ false)
    × (c ≡ false)
    × (d ≡ false)
    × (e ≡ false)
    × (f ≡ false)
    × (g ≡ false)
    × (h ≡ false)
    × (i ≡ false)

chain_pass :
    (a b c d e f g h i : Bool)
    → ((if a
          then notice_type_excluded
          else if b
          then country_excluded
          else if c
          then cpv_mismatch
          else if d
          then geography_excluded
          else if e
          then deadline_too_close
          else if f
          then amount_out_of_range
          else if g
          then procedure_excluded
          else if h
          then excluded_keyword_present
          else if i
          then required_keyword_missing
          else pass)
        ≡ pass)
      ↔ AllFalse a b c d e f g h i
chain_pass a b c d e f g h i = ((λ q. ground arith), λ q. ground arith)

excludes_none :
    (normalize : String → String) (words : List String) (text : List ℕ)
    → ((not (is_empty words) && names_any normalize words text) ≡ false)
      ↔ (names_any normalize words text ≡ false)
unfolding names_any
excludes_none normalize [] text = ((λ h. refl), λ h. refl)
excludes_none normalize (w ∷ ws) text = ((λ h. h), λ h. h)

module _ {Amount : Type 0} (below : Amount → Amount → Bool) (normalize : String → String)
    (n : CanonicalNotice Amount) (f : WatchFilters Amount) (now : ℕ) where
  -- Every filter that is set admits the notice; a notice without a place, a deadline or an amount is
  -- admitted by the filters on these, and one without a procedure is not.
  pub record Accepted : Type 0 where
    pub kind : (f.notice_types ≡ []) ⊎ (any (same_type n.notice_type) f.notice_types ≡ true)
    pub country : (f.countries ≡ []) ⊎ (elem n.country f.countries ≡ true)
    pub activity :
        (f.cpv_families ≡ []) ⊎ (any (λ c. cpv_matches c f.cpv_families) (all_cpv n) ≡ true)
    pub place :
        (f.nuts ≡ [])
        ⊎ ((all_places n ≡ []) ⊎ (any (λ p. nuts_matches p f.nuts) (all_places n) ≡ true))
    pub time :
        (days deadline : ℕ)
        → f.min_days_to_deadline ≡ some days
        → n.dates.deadline_at ≡ some deadline
        → now + days * day ≤ deadline
    pub at_least :
        (low amount : Amount)
        → f.amount_min ≡ some low
        → n.amounts.estimated_total ≡ some amount
        → below amount low ≡ false
    pub at_most :
        (high amount : Amount)
        → f.amount_max ≡ some high
        → n.amounts.estimated_total ≡ some amount
        → below high amount ≡ false
    pub procedure :
        (f.procedure_types ≡ [])
        ⊎ ((p : String) × (n.procedure.type ≡ some p) × (elem p f.procedure_types ≡ true))
    pub clean : names_any normalize f.keywords_exclude (haystack normalize n) ≡ false
    pub relevant :
        (f.keywords_include ≡ [])
        ⊎ (names_any normalize f.keywords_include (haystack normalize n) ≡ true)

-- A notice passes exactly when every filter that is set accepts it.
pub apply_hard_filters-pass_iff :
    {Amount : Type 0} (below : Amount → Amount → Bool) (normalize : String → String)
    (n : CanonicalNotice Amount) (f : WatchFilters Amount) (now : ℕ)
    → (apply_hard_filters below normalize n f now ≡ pass) ↔ Accepted below normalize n f now
unfolding apply_hard_filters
apply_hard_filters-pass_iff below normalize n f now =
    let by_chain =
      chain_pass
        (not (is_empty f.notice_types) && not (any (same_type n.notice_type) f.notice_types))
        (not (is_empty f.countries) && not (elem n.country f.countries))
        (not (is_empty f.cpv_families) && not (any (λ c. cpv_matches c f.cpv_families) (all_cpv n)))
        (not (is_empty f.nuts)
          && not (is_empty (all_places n))
          && not (any (λ p. nuts_matches p f.nuts) (all_places n)))
        (is_too_close f.min_days_to_deadline n.dates.deadline_at now)
        (is_out_of_range below f.amount_min f.amount_max n.amounts.estimated_total)
        (not (is_empty f.procedure_types) && not (is_procedure n.procedure.type f.procedure_types))
        (not (is_empty f.keywords_exclude)
          && names_any normalize f.keywords_exclude (haystack normalize n))
        (not (is_empty f.keywords_include)
          && not (names_any normalize f.keywords_include (haystack normalize n))) in
    (
      (λ h.
          let (a, b, c, d, e, g, i, j, k) = by_chain.0 h in
          record {
            kind = guard_off _ _ a;
            country = guard_off _ _ b;
            activity = guard_off _ _ c;
            place = guards_off _ _ _ d;
            time = (in_time _ _ now).0 e;
            at_least = ((in_range below _ _ _).0 g).0;
            at_most = ((in_range below _ _ _).0 g).1;
            procedure = elim (guard_off _ _ i) [
              | inl free ↦ inl free
              | inr named ↦ inr ((procedure_named _ _).0 named)
            ];
            clean = (excludes_none normalize _ _).0 j;
            relevant = guard_off _ _ k;
          }),
      λ r. by_chain.1 (
        guard_on _ _ r.kind,
        guard_on _ _ r.country,
        guard_on _ _ r.activity,
        guards_on _ _ _ r.place,
        (in_time _ _ now).1 r.time,
        (in_range below _ _ _).1 (r.at_least, r.at_most),
        elim r.procedure [
          | inl free ↦ guard_on _ _ (inl free)
          | inr named ↦ guard_on _ _ (inr ((procedure_named _ _).1 named))
        ],
        (excludes_none normalize _ _).1 r.clean,
        guard_on _ _ r.relevant,
      ),
    )
