-- ===== src/Dedupe/Names.antt =====
-- The normal forms of texts and names of buyers (dedupe.py: `strip_accents`, `normalize_text`,
-- `normalize_buyer_name`), over code points.
use bid_pilot.Prelude.{
  ℕ, zero, suc, ◌+◌, Bool, true, false, not, ◌&&◌, ◌||◌, Option, none, some, List, [], ◌∷◌, ◌++◌,
  map, leb, length, select, if◌then◌else◌,
}
use bid_pilot.Scheduler.Text.{codes, is_digit, strip}
use bid_pilot.Canonical.Clean.{Text, same_text}
use bid_pilot.Matching.Filters.{starts_with}

-- What Python's `unicodedata` and `str` know of characters.
pub record Unicode : Type 0 where
  pub nfkd : Text → Text
  pub is_combining : ℕ → Bool
  pub lower : Text → Text
  pub upper : Text → Text
  pub strip : Text → Text

unfoldable pub strip_accents : Unicode → Text → Text
strip_accents u text = select (λ c. not (u.is_combining c)) (u.nfkd text)

-- `[a-z0-9]`
unfoldable pub is_alnum : ℕ → Bool
unfolding is_digit
is_alnum c = leb 97 c && leb c 122 || is_digit c

-- `_NON_ALNUM.sub(" ", text)`; `after_gap` tells that the run before has its space already.
unfoldable pub spaced : Bool → Text → Text
unfolding is_alnum
spaced after_gap [] = []
spaced after_gap (c ∷ cs) =
    let word = spaced false cs in
    let gap = spaced true cs in
    if is_alnum c then c ∷ word else elim after_gap [ true ↦ gap | false ↦ 32 ∷ gap ]

unfoldable pub normalize_text : Unicode → Option Text → Text
unfolding spaced strip_accents strip
normalize_text u none = []
normalize_text u (some []) = []
normalize_text u (some (c ∷ cs)) = strip (spaced false (u.lower (strip_accents u (c ∷ cs))))

-- `_BUYER_NOISE`
abbrev pub buyer_noise : List Text
buyer_noise = map codes (
    "commune de" ∷ "commune d" ∷ "ville de" ∷ "ville d" ∷ "departement de" ∷ "departement du"
    ∷ "departement d" ∷ "conseil departemental" ∷ "conseil regional" ∷ "region"
    ∷ "communaute d agglomeration" ∷ "communaute de communes" ∷ "communaute urbaine" ∷ "metropole"
    ∷ "syndicat" ∷ "etablissement public" ∷ "centre hospitalier" ∷ "chu" ∷ "ch" ∷ "mairie de"
    ∷ "mairie d" ∷ "sa" ∷ "sas" ∷ "sarl" ∷ "sasu" ∷ "eurl" ∷ "spa" ∷ "nv" ∷ "bv" ∷ "cvba" ∷ "asbl"
    ∷ "vzw" ∷ [])

-- `text[n:]`
abbrev pub drop : ℕ → Text → Text
drop zero cs = cs
drop (suc n) [] = []
drop (suc n) (c ∷ cs) = drop n cs

-- The text before a suffix, if it has it.
unfoldable pub without_suffix : Text → Text → Option Text
unfolding same_text
without_suffix suffix [] = if same_text [] suffix then some [] else none
without_suffix suffix (c ∷ cs) =
    let rest = without_suffix suffix cs in
    if same_text (c ∷ cs) suffix
    then some []
    else elim rest [ none ↦ none | some front ↦ some (c ∷ front) ]

-- `text.removeprefix(f"{noise} ")` with whether it was removed, and the same of the suffix.
unfoldable pub cut_prefix : Text → Text × Bool → Text × Bool
unfolding starts_with
cut_prefix noise (text, changed) =
    if starts_with text (noise ++ 32 ∷ [])
    then (drop (length noise + 1) text, true)
    else (text, changed)

unfoldable pub left_of : Text × Bool → Option Text → Text × Bool
left_of p none = p
left_of p (some front) = (front, true)

unfoldable pub cut_suffix : Text → Text × Bool → Text × Bool
unfolding without_suffix left_of
cut_suffix noise (text, changed) = left_of (text, changed) (without_suffix (32 ∷ noise) text)

-- One run of the inner loop: it returns from the function, or ends with `changed`.
pub data Sweep : Type 0 where
  returned : Text → Sweep
  swept : Text × Bool → Sweep

unfoldable pub sweep : List Text → Text × Bool → Sweep
unfolding same_text cut_prefix cut_suffix
sweep [] (text, changed) = swept (text, changed)
sweep (noise ∷ noises) (text, changed) =
    let rest = sweep noises (cut_suffix noise (cut_prefix noise (text, changed))) in
    if same_text text noise then returned text else rest

-- `while changed`, on fuel.
unfoldable pub strip_noise : ℕ → List Text → Text → Option Text
strip_noise zero noises text = none
strip_noise (suc fuel) noises text = elim (sweep noises (text, false)) [
  | returned r ↦ some r
  | swept (r, true) ↦ strip_noise fuel noises r
  | swept (r, false) ↦ some (strip r)
]

-- A text gets one round more than it has characters.
unfoldable pub normalize_buyer_name : Unicode → Option Text → Option Text
unfolding strip_noise normalize_text
normalize_buyer_name u name = elim (normalize_text u name) [
  | [] ↦ some []
  | c ∷ cs ↦ strip_noise (suc (length (c ∷ cs))) buyer_noise (c ∷ cs)
]
