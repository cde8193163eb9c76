-- ===== src/Dates.antt =====
-- `date` and `datetime` as Backend/application/helpers.py and operations/language_parser.py use
-- them: the proleptic Gregorian calendar, and IST wall-clock times. An ISO text stands for its
-- date. Years past 9999, where Python raises OverflowError, are outside the model of `+ timedelta`.
pub mod Calendar
pub mod Windows
use recova.Prelude.{
  ℕ, zero, suc, ◌+◌, ◌*◌, ◌%◌, Bool, true, false, ◌&&◌, ◌||◌, not, Option, none, some, ltb, leb,
  ◌==◌, if◌then◌else◌,
}
use recova.Compliance.{quiet_hours_end}

pub record Date : Type 0 where
  pub year : ℕ
  pub month : ℕ
  pub day : ℕ

-- A datetime in IST.
pub record Moment : Type 0 where
  pub date : Date
  pub hour : ℕ
  pub minute : ℕ
  pub second : ℕ
  pub microsecond : ℕ

abbrev pub is_leap : ℕ → Bool
is_leap y = y % 4 == 0 && (not (y % 100 == 0) || y % 400 == 0)

unfoldable pub days_in_month : ℕ → ℕ → ℕ
days_in_month y m =
    if m == 2
    then (if is_leap y then 29 else 28)
    else if m == 4 || (m == 6 || (m == 9 || m == 11))
    then 30
    else 31

-- `date(year, month, day)`; `none` is its ValueError
unfoldable pub make_date : ℕ → ℕ → ℕ → Option Date
make_date y m d =
    if (leb 1 y && leb y 9999) && ((leb 1 m && leb m 12) && (leb 1 d && leb d (days_in_month y m)))
    then some (record { year = y; month = m; day = d })
    else none

unfoldable pub next_day : Date → Date
next_day d =
    if ltb d.day (days_in_month d.year d.month)
    then record d { day = d.day + 1 }
    else if ltb d.month 12
    then record { year = d.year; month = d.month + 1; day = 1 }
    else record { year = d.year + 1; month = 1; day = 1 }

-- `d + timedelta(days=n)`
unfoldable pub add_days : ℕ → Date → Date
unfolding next_day days_in_month
add_days zero d = d
add_days (suc n) d = add_days n (next_day d)

-- `a < b` and `a <= b` on dates
abbrev pub date_ltb : Date → Date → Bool
date_ltb a b =
    ltb a.year b.year
    || (a.year == b.year && (ltb a.month b.month || (a.month == b.month && ltb a.day b.day)))

abbrev pub date_leb : Date → Date → Bool
date_leb a b = not (date_ltb b a)

-- The microseconds since midnight.
abbrev pub time_of_day : Moment → ℕ
time_of_day t = ((t.hour * 60 + t.minute) * 60 + t.second) * 1000000 + t.microsecond

abbrev pub same_date : Date → Date → Bool
same_date a b = a.year == b.year && (a.month == b.month && a.day == b.day)

-- `a <= b` on datetimes
abbrev pub moment_leb : Moment → Moment → Bool
moment_leb a b =
    date_ltb a.date b.date || (same_date a.date b.date && leb (time_of_day a) (time_of_day b))

-- `next_quiet_hours_end`
unfoldable pub next_quiet_hours_end : Moment → Moment
next_quiet_hours_end ist =
    let target : Moment = record {
      date = ist.date;
      hour = quiet_hours_end;
      minute = 0;
      second = 0;
      microsecond = 0;
    } in
    if moment_leb target ist then record target { date = next_day target.date } else target

-- `next_salary_window`
unfoldable pub next_salary_window : Date → Date
next_salary_window today = if leb today.day 5 then record today { day = 1 } else record {
  year = today.year + (if today.month == 12 then 1 else 0);
  month = if today.month == 12 then 1 else today.month + 1;
  day = 1;
}

-- The month in which `_nth_of_month` looks for its day.
abbrev pub month_for : ℕ → Date → ℕ × ℕ
month_for n today =
    if ltb n today.day
    then (if ltb 12 (today.month + 1) then (today.year + 1, 1) else (today.year, today.month + 1))
    else (today.year, today.month)

abbrev pub first_of : ℕ × ℕ → Date
first_of (y, m) = record { year = y; month = m; day = 1 }

-- the `except ValueError` of `_nth_of_month`
abbrev pub or_rolled : ℕ × ℕ → Option Date → Date
or_rolled at (some d) = d
or_rolled at none = record (add_days 30 (first_of at)) { day = 1 }

-- `_nth_of_month`
unfoldable pub nth_of_month : ℕ → Date → Date
nth_of_month n today = let at = month_for n today in or_rolled at (make_date (at.0) (at.1) n)
