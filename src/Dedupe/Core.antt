-- ===== src/Dedupe/Core.antt =====
-- The end of the loop that strips the boilerplate of a buyer's name (dedupe.py: `normalize_buyer_name`).
use bid_pilot.Prelude.{
  ℕ, zero, suc, ◌≤◌, ◌<◌, ◌≡◌, refl, ◌+◌, Bool, true, false, arith, Option, none, some, List, [],
  ◌∷◌, ◌++◌, All, length, length-concat, Bool-cases, ◌⊎◌, inl, inr, subst, sym, ◌∙◌,
}
use bid_pilot.Scheduler.Text.{strip}
use bid_pilot.Canonical.Clean.{Text, same_text, is_in}
use bid_pilot.Matching.Filters.{starts_with}
use bid_pilot.Dedupe.Cuts.{Cuts, whole, Cuts-trans, CutTo, sweep-CutTo, known_to_itself}
use bid_pilot.Dedupe.Names.{
  Unicode, drop, without_suffix, cut_prefix, cut_suffix, left_of, Sweep, returned, swept, sweep,
  strip_noise, normalize_buyer_name, normalize_text, buyer_noise,
}

length-drop : (n : ℕ) (cs : Text) → n ≤ length cs → length (drop n cs) + n ≡ length cs
length-drop zero cs h = omega arith
length-drop (suc n) [] h = omega arith
length-drop (suc n) (c ∷ cs) h = omega (arith, length-drop n cs (omega arith))

starts_with-length : (cs ps : Text) → starts_with cs ps ≡ true → length ps ≤ length cs
unfolding starts_with
starts_with-length cs [] h = omega arith
starts_with-length [] (p ∷ ps) h = cc
starts_with-length (c ∷ cs) (p ∷ ps) h = ground (arith, starts_with-length cs ps)

-- The result is shorter than the text.
IsShorter : Option Text → Text → Type 0
IsShorter none text = Unit
IsShorter (some front) text = length front < length text

without_suffix-IsShorter : (s : ℕ) (ss text : Text) → IsShorter (without_suffix (s ∷ ss) text) text
unfolding without_suffix same_text IsShorter
without_suffix-IsShorter s ss [] = tt
without_suffix-IsShorter s ss (c ∷ cs) = elim (Bool-cases (same_text (c ∷ cs) (s ∷ ss))) [
  | inl e ↦ rw e (omega arith)
  | inr e ↦ rw e (longer (without_suffix (s ∷ ss) cs) (without_suffix-IsShorter s ss cs))
]
  where
    longer :
        (o : Option Text)
        → IsShorter o cs
        → IsShorter (elim o [ none ↦ none | some front ↦ some (c ∷ front) ]) (c ∷ cs)
    longer none h = tt
    longer (some front) h = omega arith

-- The text is not the noise, and neither begins nor ends with it.
pub record Quiet (t noise : Text) : Type 0 where
  pub whole : same_text t noise ≡ false
  pub front : starts_with t (noise ++ 32 ∷ []) ≡ false
  pub back : without_suffix (32 ∷ noise) t ≡ none

-- The two cuts of a round leave the pair alone, or shorten the text and note it.
Round : Text → Text × Bool → Text × Bool → Type 0
Round noise (t, b) (r, d) =
    ((r ≡ t)
      × (d ≡ b)
      × (starts_with t (noise ++ 32 ∷ []) ≡ false)
      × (without_suffix (32 ∷ noise) t ≡ none))
    ⊎ ((d ≡ true) × (length r < length t))

drop-prefix :
    (noise t : Text)
    → starts_with t (noise ++ 32 ∷ []) ≡ true
    → length (drop (length noise + 1) t) < length t
drop-prefix noise t e = omega (
  arith,
  starts_with-length t (noise ++ 32 ∷ []) e,
  length-concat noise 32,
  length-drop (length noise + 1) t,
)

left_of-Round :
    (noise t : Text) (b : Bool) (o : Option Text)
    → starts_with t (noise ++ 32 ∷ []) ≡ false
    → without_suffix (32 ∷ noise) t ≡ o
    → IsShorter o t
    → Round noise (t, b) (left_of (t, b) o)
unfolding left_of Round IsShorter
left_of-Round noise t b none k e h = inl (refl, refl, k, e)
left_of-Round noise t b (some front) k e h = inr (refl, h)

left_of-shorter :
    (noise t x : Text) (b : Bool) (o : Option Text)
    → length x < length t
    → IsShorter o x
    → Round noise (t, b) (left_of (x, true) o)
unfolding left_of Round IsShorter
left_of-shorter noise t x b none k h = inr (refl, k)
left_of-shorter noise t x b (some front) k h = inr (refl, omega arith)

cuts-Round :
    (noise t : Text) (b : Bool) → Round noise (t, b) (cut_suffix noise (cut_prefix noise (t, b)))
unfolding cut_prefix cut_suffix
cuts-Round noise t b = elim (Bool-cases (starts_with t (noise ++ 32 ∷ []))) [
  | inl e ↦ rw e (
      let x : Text = drop (length noise + 1) t in
      left_of-shorter noise t x b (without_suffix (32 ∷ noise) x) (drop-prefix noise t e)
        (without_suffix-IsShorter 32 noise x))
  | inr e ↦ rw e (
      left_of-Round noise t b (without_suffix (32 ∷ noise) t) e refl
        (without_suffix-IsShorter 32 noise t))
]

-- What a sweep over the noises that began with a text and a flag ends with.
Ended : List Text → Text → Bool → Sweep → Type 0
Ended noises t b (returned r) = is_in noises r ≡ true
Ended noises t b (swept (r, true)) = (length r ≤ length t) × ((b ≡ true) ⊎ (length r < length t))
Ended noises t b (swept (r, false)) = (b ≡ false) × (r ≡ t) × All (Quiet t) noises

Round-Ended :
    (noise : Text) (noises : List Text) (t : Text) (b : Bool) (x : Text) (d : Bool) (s : Sweep)
    → same_text t noise ≡ false
    → Round noise (t, b) (x, d)
    → Ended noises x d s
    → Ended (noise ∷ noises) t b s
unfolding Ended Round
Round-Ended noise noises t b x d (returned r) k c h = ground arith
Round-Ended noise noises t b x d (swept (r, true)) k (inl (e, g, p, q)) h =
    subst (λ y. (length r ≤ length y) × ((b ≡ true) ⊎ (length r < length y))) e
      (subst (λ y. (length r ≤ length x) × ((y ≡ true) ⊎ (length r < length x))) g h)
Round-Ended noise noises t b x d (swept (r, true)) k (inr (g, q)) h =
    (omega arith, inr (omega arith))
Round-Ended noise noises t b x d (swept (r, false)) k (inl (e, g, p, q)) h = (
  sym g ∙ h.0,
  h.1 ∙ e,
  (record { whole = k; front = p; back = q }, subst (λ y. All (Quiet y) noises) e h.2),
)
Round-Ended noise noises t b x d (swept (r, false)) k (inr (g, q)) h = cc

sweep-Ended : (noises : List Text) (t : Text) (b : Bool) → Ended noises t b (sweep noises (t, b))
unfolding sweep Ended
sweep-Ended [] t true = (omega arith, inl refl)
sweep-Ended [] t false = (refl, refl, tt)
sweep-Ended (noise ∷ noises) t b = elim (Bool-cases (same_text t noise)) [
  | inl e ↦ rw e (ground arith)
  | inr e ↦ rw e (
      let q : Text × Bool = cut_suffix noise (cut_prefix noise (t, b)) in
      Round-Ended noise noises t b q.0 q.1 (sweep noises q) e (cuts-Round noise t b)
        (sweep-Ended noises q.0 q.1))
]

-- One of the noises that is cut from the start of a text, or without them at either end and stripped.
pub data IsCore (noises : List Text) (text : Text) : Text → Type 0 where
  is_noise : (r : Text) → Cuts noises text r → is_in noises r ≡ true → IsCore noises text r
  is_bare : (r : Text) → Cuts noises text r → All (Quiet r) noises → IsCore noises text (strip r)

Ended-IsCore :
    (fuel : ℕ) (noises : List Text) (start t : Text) (s : Sweep)
    → Cuts noises start t
    → CutTo noises t s
    → Ended noises t false s
    → length t ≤ fuel
    → ((r : Text)
        → Cuts noises start r
        → length r < fuel
        → (out : Text) × (strip_noise fuel noises r ≡ some out) × IsCore noises start out)
    → (out : Text) × (elim s [
      | returned r ↦ some r
      | swept (r, true) ↦ strip_noise fuel noises r
      | swept (r, false) ↦ some (strip r)
    ]
        ≡ some out)
      × IsCore noises start out
unfolding Ended
Ended-IsCore fuel noises start t (returned r) c d h le k = (r, refl, is_noise r (Cuts-trans c d) h)
Ended-IsCore fuel noises start t (swept (r, true)) c d h le k = k r (Cuts-trans c d) (ground arith)
Ended-IsCore fuel noises start t (swept (r, false)) c d h le k =
    (strip r, refl, is_bare r (Cuts-trans c d) (subst (λ y. All (Quiet y) noises) (sym h.1) h.2))

-- The loop ends within one round more than the text has characters.
strip_noise-IsCore :
    (fuel : ℕ) (noises : List Text) (start t : Text)
    → Cuts noises start t
    → length t < fuel
    → (out : Text) × (strip_noise fuel noises t ≡ some out) × IsCore noises start out
unfolding strip_noise
strip_noise-IsCore zero noises start t c h = absurd (omega arith)
strip_noise-IsCore (suc fuel) noises start t c h =
    Ended-IsCore fuel noises start t (sweep noises (t, false)) c
      (sweep-CutTo noises noises (known_to_itself noises) t false) (sweep-Ended noises t false)
      (omega arith) (λ r d le. strip_noise-IsCore fuel noises start r d le)

named-IsCore :
    (text : Text)
    → (out : Text) × (elim text [
      | [] ↦ some []
      | c ∷ cs ↦ strip_noise (suc (length (c ∷ cs))) buyer_noise (c ∷ cs)
    ]
        ≡ some out)
      × (((text ≡ []) × (out ≡ [])) ⊎ IsCore buyer_noise text out)
named-IsCore [] = ([], refl, inl (refl, refl))
named-IsCore (c ∷ cs) =
    let e : (out : Text) × (strip_noise (suc (length (c ∷ cs))) buyer_noise (c ∷ cs) ≡ some out)
        × IsCore buyer_noise (c ∷ cs) out =
      strip_noise-IsCore (suc (length (c ∷ cs))) buyer_noise (c ∷ cs) (c ∷ cs) (whole (c ∷ cs))
        (omega arith) in
    (e.0, e.1, inr e.2)

-- The normal form of a buyer's name exists for every name: the loop ends. It is empty where the
-- normalised text is. Else it comes from the normalised text by cuts, each of a boilerplate phrase with
-- a space at the front or at the back, and what is left is itself one of the phrases, or is stripped and
-- is none of them and neither begins nor ends with one as a separate word.
pub normalize_buyer_name-IsCore :
    (u : Unicode) (name : Option Text)
    → (out : Text) × (normalize_buyer_name u name ≡ some out)
      × (((normalize_text u name ≡ []) × (out ≡ []))
          ⊎ IsCore buyer_noise (normalize_text u name) out)
unfolding normalize_buyer_name
normalize_buyer_name-IsCore u name = named-IsCore (normalize_text u name)
