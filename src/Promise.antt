-- ===== src/Promise.antt =====
-- Backend/application/operations/language_parser.py: the promise-to-pay date in a reply. The three
-- regular expressions are written out as scans, in the order in which `re.search` tries positions
-- and alternatives, on ASCII text.
pub mod Spoken
use recova.Prelude.{
  ℕ, ◌+◌, ◌-◌, ◌*◌, Bool, true, false, ◌&&◌, ◌||◌, not, Option, none, some, List, [], ◌∷◌, map, leb,
  ltb, all, ◌==◌, if◌then◌else◌,
}
use recova.Prelude.Text.{Text, codes, lower, is_in, starts_with}
use recova.Dates.{Date, make_date, add_days, nth_of_month}

abbrev pub is_digit : ℕ → Bool
is_digit c = leb b'0' c && leb c b'9'

abbrev pub is_space : ℕ → Bool
is_space c = (leb 9 c && leb c 13) || (leb 28 c && leb c 32)

abbrev pub is_word : ℕ → Bool
is_word c = is_digit c || (leb b'a' c && leb c b'z') || (leb b'A' c && leb c b'Z') || c == b'_'

-- `\b` behind a word character
abbrev pub at_boundary : Text → Bool
at_boundary [] = true
at_boundary (c ∷ s) = not (is_word c)

-- `\s*`
pub skip_spaces : Text → Text
skip_spaces [] = []
skip_spaces (c ∷ s) = if is_space c then skip_spaces s else c ∷ s

-- What is left behind a prefix.
pub after : Text → Text → Option Text
after [] s = some s
after (c ∷ p) [] = none
after (c ∷ p) (d ∷ s) = if c == d then after p s else none

-- `(u1|u2|...)\b`
pub unit_follows : List Text → Text → Bool
unfolding after
unit_follows [] s = false
unit_follows (u ∷ us) s = elim (after u s) [
  | none ↦ unit_follows us s
  | some rest ↦ at_boundary rest || unit_follows us s
]

abbrev pub digit : ℕ → ℕ
digit c = c - b'0'

-- `(\d{1,2})\s*(u1|u2|...)\b` at the head of the text
pub count_here : List Text → Text → Option ℕ
unfolding skip_spaces unit_follows
count_here us [] = none
count_here us (c ∷ []) = none
count_here us (c ∷ d ∷ s) =
    if is_digit c
    then if is_digit d && unit_follows us (skip_spaces s)
      then some (digit c * 10 + digit d)
      else if unit_follows us (skip_spaces (d ∷ s))
      then some (digit c)
      else none
    else none

-- the same, searched from left to right
pub find_count : List Text → Text → Option ℕ
unfolding count_here
find_count us [] = none
find_count us (c ∷ s) = elim (count_here us (c ∷ s)) [ some n ↦ some n | none ↦ find_count us s ]

-- `(\d{1,2})\b` at the head of the text
pub number_here : Text → Option ℕ
number_here [] = none
number_here (c ∷ []) = if is_digit c then some (digit c) else none
number_here (c ∷ d ∷ s) =
    if is_digit c
    then if is_digit d && at_boundary s
      then some (digit c * 10 + digit d)
      else if at_boundary (d ∷ s)
      then some (digit c)
      else none
    else none

-- `[/-](\d{1,2})\b`
pub separated : ℕ → Text → Option (ℕ × ℕ)
unfolding number_here
separated day [] = none
separated day (c ∷ s) =
    if c == b'/' || c == b'-'
    then elim (number_here s) [ none ↦ none | some month ↦ some (day, month) ]
    else none

-- `(\d{1,2})[/-](\d{1,2})\b` at the head of the text
pub day_month_here : Text → Option (ℕ × ℕ)
unfolding separated
day_month_here [] = none
day_month_here (c ∷ []) = none
day_month_here (c ∷ d ∷ s) =
    if is_digit c
    then if is_digit d then separated (digit c * 10 + digit d) s else separated (digit c) (d ∷ s)
    else none

-- `\b(\d{1,2})[/-](\d{1,2})\b`, searched; the flag tells whether a word character stands before
pub find_day_month : Bool → Text → Option (ℕ × ℕ)
unfolding day_month_here
find_day_month before [] = none
find_day_month before (c ∷ s) = elim (if before then none else day_month_here (c ∷ s)) [
  | some dm ↦ some dm
  | none ↦ find_day_month (is_word c) s
]

abbrev pub day_units : List Text
day_units = map codes ("din" ∷ "days" ∷ "day" ∷ [])

abbrev pub date_units : List Text
date_units = map codes ("tarikh" ∷ "tareekh" ∷ "tarik" ∷ [])

-- `m = re.search(...); if m: return ...`, with what comes after it
abbrev pub counted : (ℕ → Date) → Option ℕ → Option Date → Option Date
counted resolve (some n) later = some (resolve n)
counted resolve none later = later

-- the last `if m:` of `extract_p2p_date`
abbrev pub day_and_month : Date → Option (ℕ × ℕ) → Option Date
day_and_month today none = none
day_and_month today (some (day, month)) =
    make_date (today.year + (if ltb month today.month then 1 else 0)) month day

-- the numeric tail of `extract_p2p_date`
pub numeric_date : Text → Date → Option Date
unfolding find_count find_day_month
numeric_date t today =
    counted (λ n. add_days n today) (find_count day_units t)
      (counted (λ n. nth_of_month n today) (find_count date_units t)
        (day_and_month today (find_day_month false t)))

unfoldable pub extract_p2p_date : Text → Date → Option Date
unfolding numeric_date
extract_p2p_date text today =
    let t = lower text in
    if all is_space t
    then none
    else if is_in (codes "parso") t || is_in (codes "parson") t
    then some (add_days 2 today)
    else if is_in (codes "kal") t
    then some (add_days 1 today)
    else if is_in (codes "agle hafte") t
        || is_in (codes "next week") t
        || is_in (codes "agle week") t
    then some (add_days 7 today)
    else numeric_date t today
