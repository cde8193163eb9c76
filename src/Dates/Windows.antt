-- ===== src/Dates/Windows.antt =====
-- When the agent may act again, and on which date a promise falls: the clock arithmetic of
-- helpers.py and language_parser.py.
use recova.Prelude.{ℕ, suc, ◌+◌, ◌-◌, ◌≤◌, ◌<◌, ◌≡◌, true, false, arith, ◌∙◌, ◌⊎◌, ap, none}
use recova.Dates.{
  Date, Moment, days_in_month, make_date, next_day, add_days, date_ltb, date_leb, moment_leb,
  next_quiet_hours_end, next_salary_window, first_of, or_rolled, nth_of_month,
}
use recova.Dates.Calendar.{
  IsDate, days_in_month_bounds, add_days-add, add_days_later, add_days_within, next_day_least,
}

-- 09:00 on some day.
abbrev pub IsNine : Moment → Type 0
IsNine t = (t.hour ≡ 9) × (t.minute ≡ 0) × (t.second ≡ 0) × (t.microsecond ≡ 0)

-- `u` is the first 09:00 strictly after `t`.
pub record IsFirstNine (t u : Moment) : Type 0 where
  pub nine : IsNine u
  pub later : moment_leb u t ≡ false
  pub first :
      (v : Moment) → IsDate v.date → IsNine v → moment_leb v t ≡ false → moment_leb u v ≡ true

-- The end of a deferral is the first 09:00 strictly after the moment it is computed at: at exactly
-- 09:00 it is that of the next day.
pub next_quiet_hours_end-IsFirstNine : (t : Moment) → IsFirstNine t (next_quiet_hours_end t)
unfolding next_quiet_hours_end
next_quiet_hours_end-IsFirstNine t = record {
  nine = ground arith;
  later = unfold next_day in ground arith;
  first = λ v valid nine after. ground (arith, next_day_least t.date v.date valid);
}

-- From a date of the calendar, the salary window is a date of the calendar and the first of a
-- month; after the fifth of the month it lies ahead.
next_salary_window_ahead :
    (today : Date)
    → IsDate today
    → IsDate (next_salary_window today)
      × ((next_salary_window today).day ≡ 1)
      × ((today.day ≤ 5) ⊎ (date_ltb today (next_salary_window today) ≡ true))
unfolding next_salary_window
next_salary_window_ahead today v = (
  ground (
    arith,
    days_in_month_bounds (next_salary_window today).year (next_salary_window today).month,
  ),
  ground arith,
  ground arith,
)

-- The last day of a month.
abbrev last_of : ℕ → ℕ → Date
last_of y m = record { year = y; month = m; day = days_in_month y m }

-- The days left over fit into the month that follows.
fits :
    (y m : ℕ)
    → days_in_month y m ≤ 30
    → (next_day (last_of y m)).day + (30 - days_in_month y m)
      ≤ days_in_month (next_day (last_of y m)).year (next_day (last_of y m)).month
unfolding next_day
fits y m short = ground (
  arith,
  days_in_month_bounds y m,
  days_in_month_bounds y (m + 1),
  days_in_month_bounds (y + 1) 1,
)

-- Thirty days after the first of a month of at most thirty days lie in the next month.
thirty_days_on :
    (y m : ℕ)
    → days_in_month y m ≤ 30
    → add_days 30 (first_of (y, m)) ≡ record (next_day (last_of y m)) {
      day = (next_day (last_of y m)).day + (30 - days_in_month y m);
    }
thirty_days_on y m short =
    let bounds = days_in_month_bounds y m in
    let split : 30 ≡ (days_in_month y m - 1) + suc (30 - days_in_month y m) = omega arith in
    let to_last : add_days (days_in_month y m - 1) (first_of (y, m)) ≡ last_of y m =
      add_days_within (days_in_month y m - 1) (first_of (y, m)) (omega arith)
      ∙ ap (λ (d : ℕ). record { year = y; month = m; day = d }) (omega arith) in
    let on = add_days_within (30 - days_in_month y m) (next_day (last_of y m)) (fits y m short) in
    ap (λ (k : ℕ). add_days k (first_of (y, m))) split
    ∙ add_days-add (days_in_month y m - 1) (suc (30 - days_in_month y m)) (first_of (y, m))
    ∙ ap (add_days (suc (30 - days_in_month y m))) to_last
    ∙ (unfold add_days in on)

-- The fallback of `_nth_of_month` in a month of at most thirty days: a later month.
rolled_later :
    (y m : ℕ)
    → days_in_month y m ≤ 30
    → date_ltb (record { year = y; month = m; day = 31 }) (or_rolled (y, m) none) ≡ true
unfolding next_day
rolled_later y m short = rw (thirty_days_on y m short) (ground (arith, days_in_month_bounds y m))

-- In any month it does not lie before that month.
rolled_from : (y m : ℕ) → date_leb (first_of (y, m)) (or_rolled (y, m) none) ≡ true
rolled_from y m = ground (arith, add_days_later 29 (first_of (y, m)))

-- Where `_nth_of_month` lands once the month is chosen.
landing : (y m n : ℕ) → date_leb (first_of (y, m)) (or_rolled (y, m) (make_date y m n)) ≡ true
unfolding make_date
landing y m n = ground (arith, rolled_from y m)

landing_this_month :
    (n : ℕ) (today : Date)
    → IsDate today
    → 1 ≤ today.year
    → today.year ≤ 9999
    → n ≤ 31
    → today.day ≤ n
    → date_leb today (or_rolled (today.year, today.month) (make_date today.year today.month n))
      ≡ true
unfolding make_date
landing_this_month n today v lo hi h from = ground (arith, rolled_later today.year today.month)

-- From a date of the calendar with a year between 1 and 9999, and for a day number of at most 31,
-- the promise is not booked on a date before today.
pub nth_of_month_not_past :
    (n : ℕ) (today : Date)
    → IsDate today
    → 1 ≤ today.year
    → today.year ≤ 9999
    → n ≤ 31
    → date_leb today (nth_of_month n today) ≡ true
unfolding nth_of_month
nth_of_month_not_past n today v lo hi h = ground (
  arith,
  landing_this_month n today v lo hi h,
  landing (today.year + 1) 1 n,
  landing today.year (today.month + 1) n,
)

-- For a day number above 31 in a month of 31 days, on a day after the first, the promise is booked
-- on a date that has passed.
nth_of_month_past :
    (n : ℕ) (today : Date)
    → 31 < n
    → days_in_month today.year today.month ≡ 31
    → 1 < today.day
    → today.day ≤ 31
    → date_ltb (nth_of_month n today) today ≡ true
unfolding nth_of_month make_date
nth_of_month_past n today big long late up =
    let on = add_days_within 30 (first_of (today.year, today.month)) (omega arith) in
    ground (arith, on)
