-- ===== src/Scheduler/Text.antt =====
-- What scheduler.py uses of Python's texts, over code points: `strip`, `split`, `int` and `str`, and SQL's `left`.
use Prim.Native.Char.{code}
use Prim.Native.String.{◌++◌ as cat}
use bid_pilot.Prelude.{
  ℕ, zero, suc, ◌+◌, ◌-◌, ◌*◌, ◌/◌, ◌%◌, Bool, true, false, ◌&&◌, ◌||◌, String, Option, none, some,
  List, [], ◌∷◌, ◌++◌, ◌==◌, leb, if◌then◌else◌, get_or,
}

abbrev pub codes : String → List ℕ
codes String.[] = []
codes (String.◌∷◌ c s) = code c ∷ codes s

-- The white space of ASCII, and the no-break space.
unfoldable pub is_space : ℕ → Bool
is_space c = c == 32 || leb 9 c && leb c 13 || leb 28 c && leb c 31 || c == 133 || c == 160

unfoldable pub strip_left : List ℕ → List ℕ
unfolding is_space
strip_left [] = []
strip_left (c ∷ cs) = let rest = strip_left cs in if is_space c then rest else c ∷ cs

-- A text without the white space at its end.
unfoldable pub strip_right : List ℕ → List ℕ
unfolding is_space
strip_right [] = []
strip_right (c ∷ cs) = elim (strip_right cs) [
  | [] ↦ if is_space c then [] else c ∷ []
  | d ∷ ds ↦ c ∷ d ∷ ds
]

-- `text.strip()`
unfoldable pub strip : List ℕ → List ℕ
unfolding strip_left strip_right
strip cs = strip_right (strip_left cs)

-- `text.split(sep)`, for a single character
unfoldable pub split_on : ℕ → List ℕ → List (List ℕ)
split_on sep [] = [] ∷ []
split_on sep (c ∷ cs) =
    let rest = split_on sep cs in
    if c == sep then [] ∷ rest else elim rest [ [] ↦ (c ∷ []) ∷ [] | w ∷ ws ↦ (c ∷ w) ∷ ws ]

-- `text.split(sep, 1)`, if the separator occurs
unfoldable pub split_once : ℕ → List ℕ → Option (List ℕ × List ℕ)
split_once sep [] = none
split_once sep (c ∷ cs) =
    let rest = split_once sep cs in
    if c == sep then some ([], cs) else elim rest [ none ↦ none | some (l, r) ↦ some (c ∷ l, r) ]

-- The words of `text.split()`; `word` is the word that is being read.
unfoldable pub words_from : List ℕ → List ℕ → List (List ℕ)
unfolding is_space
words_from word [] = elim word [ [] ↦ [] | w ∷ ws ↦ (w ∷ ws) ∷ [] ]
words_from word (c ∷ cs) =
    let rest = words_from [] cs in
    let longer = words_from (word ++ c ∷ []) cs in
    if is_space c then elim word [ [] ↦ rest | w ∷ ws ↦ (w ∷ ws) ∷ rest ] else longer

unfoldable pub words : List ℕ → List (List ℕ)
unfolding words_from
words cs = words_from [] cs

-- An integer as `int` returns it.
pub data ℤ : Type 0 where
  pos : ℕ → ℤ
  negsuc : ℕ → ℤ

-- `-n`
unfoldable pub neg : ℕ → ℤ
neg zero = pos zero
neg (suc n) = negsuc n

unfoldable pub is_digit : ℕ → Bool
is_digit c = leb 48 c && leb c 57

-- Digits, with single underscores between them; `open` tells that a digit has to follow.
unfoldable pub digits_from : ℕ → Bool → List ℕ → Option ℕ
unfolding is_digit
digits_from n true [] = none
digits_from n false [] = some n
digits_from n wanted (c ∷ cs) =
    let next = digits_from (n * 10 + (c - 48)) false cs in
    let after = digits_from n true cs in
    if is_digit c
    then next
    else elim wanted [ true ↦ none | false ↦ if c == 95 then after else none ]

unfoldable pub signed : List ℕ → Option ℤ
unfolding digits_from neg
signed [] = none
signed (c ∷ cs) =
    if c == 45
    then elim (digits_from 0 true cs) [ none ↦ none | some n ↦ some (neg n) ]
    else if c == 43
    then elim (digits_from 0 true cs) [ none ↦ none | some n ↦ some (pos n) ]
    else elim (digits_from 0 true (c ∷ cs)) [ none ↦ none | some n ↦ some (pos n) ]

-- `int(text)`, on ASCII; `none` is the ValueError
unfoldable pub int : List ℕ → Option ℤ
unfolding signed strip
int cs = signed (strip cs)

abbrev digit_texts : List String
digit_texts = "0" ∷ "1" ∷ "2" ∷ "3" ∷ "4" ∷ "5" ∷ "6" ∷ "7" ∷ "8" ∷ "9" ∷ []

-- The decimal digits of `n` before `acc`; as many rounds as `n` itself are enough.
unfoldable pub decimal_from : ℕ → ℕ → String → String
decimal_from zero n acc = acc
decimal_from (suc f) n acc =
    let text = cat (get_or digit_texts (n % 10) "") acc in
    let rest = decimal_from f (n / 10) text in if n / 10 == 0 then text else rest

-- `str(n)`
unfoldable pub str : ℕ → String
unfolding decimal_from
str n = decimal_from (n + 1) n ""

-- `left(text, n)`
unfoldable pub left : ℕ → String → String
left zero s = String.[]
left (suc n) String.[] = String.[]
left (suc n) (String.◌∷◌ c s) = String.◌∷◌ c (left n s)
