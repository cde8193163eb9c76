-- ===== src/Promise/Spoken.antt =====
-- Promises as they are written, and the dates that they resolve to.
use recova.Prelude.{ℕ, ◌+◌, ◌*◌, ◌≤◌, ◌≡◌, some, [], ◌∷◌, ◌++◌, if◌then◌else◌, ltb}
use recova.Prelude.Text.{Text, codes}
use recova.Dates.{Date, make_date, add_days, nth_of_month}
use recova.Promise.{extract_p2p_date}

-- The two digits of a number below 100, as text.
abbrev pub two_digits : ℕ → ℕ → Text
two_digits a b = (48 + a) ∷ (48 + b) ∷ []

module _ (a b c d : ℕ) (ha : a ≤ 9) (hb : b ≤ 9) (hc : c ≤ 9) (hd : d ≤ 9) where
  abbrev slashed : Text
  slashed = two_digits a b ++ codes "/" ++ two_digits c d

-- The dates that the phrases of a promise mean on a day; a number is its two digits.
pub record IsUnderstood (a b c d : ℕ) (today : Date) : Type 0 where
  pub kal : extract_p2p_date (codes "Kal") today ≡ some (add_days 1 today)
  pub parso : extract_p2p_date (codes "PARSO") today ≡ some (add_days 2 today)
  pub agle_hafte : extract_p2p_date (codes "agle hafte") today ≡ some (add_days 7 today)
  pub next_week : extract_p2p_date (codes "Next week") today ≡ some (add_days 7 today)
  pub days :
      extract_p2p_date (two_digits a b ++ codes " din") today ≡ some (add_days (10 * a + b) today)
  pub date :
      extract_p2p_date (two_digits a b ++ codes " tarikh") today
      ≡ some (nth_of_month (10 * a + b) today)
  pub slash :
      extract_p2p_date (two_digits a b ++ codes "/" ++ two_digits c d) today
      ≡ make_date
          (today.year + (if ltb (10 * c + d) today.month then 1 else 0))
          (10 * c + d)
          (10 * a + b)
