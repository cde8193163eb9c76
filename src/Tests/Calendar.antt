-- ===== src/Tests/Calendar.antt =====
-- Concrete moments and dates.
use recova.Prelude.{◌≡◌, true, arith}
use recova.Dates.{Moment, date_leb, days_in_month, next_quiet_hours_end, nth_of_month}
use recova.Dates.Calendar.{IsDate}
use recova.Dates.Windows.{IsFirstNine, next_quiet_hours_end-IsFirstNine, nth_of_month_not_past}
use recova.Tests.Samples.{some_day, some_day-IsDate, evening}

-- 09:00 on the day after
abbrev morning : Moment
morning = record {
  date = record { year = 2026; month = 10; day = 6 };
  hour = 9;
  minute = 0;
  second = 0;
  microsecond = 0;
}

morning-IsDate : IsDate morning.date
unfolding days_in_month
morning-IsDate = record {
  month_low = omega arith;
  month_high = omega arith;
  day_low = omega arith;
  day_high = omega arith;
}

next_quiet_hours_end-IsFirstNine_example : IsFirstNine evening (next_quiet_hours_end evening)
next_quiet_hours_end-IsFirstNine_example = next_quiet_hours_end-IsFirstNine evening

nth_of_month_not_past_example : date_leb some_day (nth_of_month 2 some_day) ≡ true
nth_of_month_not_past_example =
    nth_of_month_not_past 2 some_day some_day-IsDate (omega arith) (omega arith) (omega arith)
