-- ===== src/Prelude/Text.antt =====
-- Python text that the program walks: a list of code points, with `lower` on ASCII and `in`.
use Prim.Native.Char.{code}
use Prim.Native.Nat.{ℕ, ◌+◌, ◌-◌}
use Prim.Native.String.{String}
use mathlib.Core.Path.{◌≡◌, refl}
use mathlib.Core.Logic.{◌⊎◌, inl, inr}
use mathlib.Core.Bool.{Bool, true, false, ◌&&◌, ◌||◌}
use mathlib.Core.List.{List, [], ◌∷◌, ◌++◌, map}
use native.Mathlib.Omega.{arith}
use recova.Prelude.Tests.{leb, ◌==◌, if◌then◌else◌}

abbrev pub Text : Type 0
Text = List ℕ

-- The code points of a literal.
abbrev pub codes : String → Text
codes String.[] = []
codes (String.◌∷◌ c s) = code c ∷ codes s

abbrev pub lower_char : ℕ → ℕ
lower_char c = if leb b'A' c && leb c b'Z' then c + 32 else c

-- `text.lower()`, on ASCII letters
unfoldable pub lower : Text → Text
lower = map lower_char

abbrev pub upper_char : ℕ → ℕ
upper_char c = if leb b'a' c && leb c b'z' then c - 32 else c

-- `text.upper()`, on ASCII letters
unfoldable pub upper : Text → Text
upper = map upper_char

-- `s == t`
unfoldable pub same_text : Text → Text → Bool
same_text [] [] = true
same_text [] (d ∷ t) = false
same_text (c ∷ s) [] = false
same_text (c ∷ s) (d ∷ t) = c == d && same_text s t

-- `s.startswith(p)`
unfoldable pub starts_with : Text → Text → Bool
starts_with [] s = true
starts_with (c ∷ p) [] = false
starts_with (c ∷ p) (d ∷ s) = c == d && starts_with p s

-- `p in s`
unfoldable pub is_in : Text → Text → Bool
unfolding starts_with
is_in p [] = starts_with p []
is_in p (d ∷ s) = starts_with p (d ∷ s) || is_in p s

-- A text that begins with `p` begins with it whatever follows.
pub starts_with-append : (p rest : Text) → starts_with p (p ++ rest) ≡ true
unfolding starts_with
starts_with-append [] rest = refl
starts_with-append (c ∷ p) rest = ground (arith, starts_with-append p rest)

is_in_of_starts_with : (p s : Text) → starts_with p s ≡ true → is_in p s ≡ true
unfolding is_in
is_in_of_starts_with p [] h = h
is_in_of_starts_with p (d ∷ s) h = ground arith

is_in-cons : (p : Text) (d : ℕ) (s : Text) → is_in p s ≡ true → is_in p (d ∷ s) ≡ true
unfolding is_in
is_in-cons p d s h = ground arith

-- A phrase is found wherever it stands in the text.
pub is_in-middle : (pre p post : Text) → is_in p (pre ++ (p ++ post)) ≡ true
is_in-middle [] p post = is_in_of_starts_with p (p ++ post) (starts_with-append p post)
is_in-middle (d ∷ pre) p post = is_in-cons p d (pre ++ (p ++ post)) (is_in-middle pre p post)

split_of_starts_with : (p s : Text) → starts_with p s ≡ true → (post : Text) × (s ≡ p ++ post)
unfolding starts_with
split_of_starts_with [] s h = (s, refl)
split_of_starts_with (c ∷ p) [] h = cc
split_of_starts_with (c ∷ p) (d ∷ s) h =
    let (post, e) = split_of_starts_with p s (ground arith) in (post, ground arith)

-- And what is found does stand in the text.
pub is_in_sound :
    (p s : Text) → is_in p s ≡ true → (pre : Text) × (post : Text) × (s ≡ pre ++ (p ++ post))
unfolding is_in
is_in_sound p [] h = let (post, e) = split_of_starts_with p [] h in ([], post, e)
is_in_sound p (d ∷ s) h = elim (tested (starts_with p (d ∷ s)) (is_in p s) h) [
  | inl here ↦ let (post, e) = split_of_starts_with p (d ∷ s) here in ([], post, e)
  | inr later ↦ let (pre, post, e) = is_in_sound p s later in (d ∷ pre, post, cc)
]
  where
    tested : (a b : Bool) → (a || b) ≡ true → (a ≡ true) ⊎ (b ≡ true)
    tested true b t = inl refl
    tested false b t = inr t

lower_char_idem : (c : ℕ) → lower_char (lower_char c) ≡ lower_char c
lower_char_idem c = ground arith

pub lower_idem : (s : Text) → lower (lower s) ≡ lower s
unfolding lower
lower_idem [] = refl
lower_idem (c ∷ s) = cc (lower_char_idem c, lower_idem s)

upper_char_idem : (c : ℕ) → upper_char (upper_char c) ≡ upper_char c
upper_char_idem c = ground arith

pub upper_idem : (s : Text) → upper (upper s) ≡ upper s
unfolding upper
upper_idem [] = refl
upper_idem (c ∷ s) = cc (upper_char_idem c, upper_idem s)
