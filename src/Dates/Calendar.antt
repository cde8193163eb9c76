-- ===== src/Dates/Calendar.antt =====
-- The calendar: stepping a day keeps a date valid and moves it forward.
use recova.Prelude.{ℕ, zero, suc, ◌+◌, ◌≤◌, ◌≡◌, true, arith, inl, inr, Bool-cases}
use recova.Dates.{Date, is_leap, days_in_month, next_day, add_days, date_ltb, date_leb}

-- A date that Python's `date` accepts, short of the year bound.
pub record IsDate (d : Date) : Type 0 where
  pub month_low : 1 ≤ d.month
  pub month_high : d.month ≤ 12
  pub day_low : 1 ≤ d.day
  pub day_high : d.day ≤ days_in_month d.year d.month

pub days_in_month_bounds : (y m : ℕ) → (28 ≤ days_in_month y m) × (days_in_month y m ≤ 31)
unfolding days_in_month
days_in_month_bounds y m = elim (Bool-cases (is_leap y)) [
  | inl leap ↦ rw leap (ground arith)
  | inr common ↦ rw common (ground arith)
]

pub next_day-IsDate : (d : Date) → IsDate d → IsDate (next_day d)
unfolding next_day
next_day-IsDate d v =
    ground (arith, days_in_month_bounds d.year (d.month + 1), days_in_month_bounds (d.year + 1) 1)

pub add_days-IsDate : (n : ℕ) (d : Date) → IsDate d → IsDate (add_days n d)
unfolding add_days
add_days-IsDate zero d v = v
add_days-IsDate (suc n) d v = add_days-IsDate n (next_day d) (next_day-IsDate d v)

-- The order of dates as a number, monotone on every date.
pub next_day_later : (d : Date) → date_ltb d (next_day d) ≡ true
unfolding next_day
next_day_later d = ground arith

pub date_ltb_trans :
    (a b c : Date) → date_ltb a b ≡ true → date_ltb b c ≡ true → date_ltb a c ≡ true
date_ltb_trans a b c p q = ground arith

pub add_days_later : (n : ℕ) (d : Date) → date_ltb d (add_days (suc n) d) ≡ true
unfolding add_days
add_days_later zero d = next_day_later d
add_days_later (suc n) d =
    date_ltb_trans d (next_day d) (add_days (suc n) (next_day d)) (next_day_later d)
      (add_days_later n (next_day d))

pub add_days-add : (a b : ℕ) (d : Date) → add_days (a + b) d ≡ add_days b (add_days a d)
unfolding add_days
add_days-add zero b d = rw (let e : zero + b ≡ b = omega arith in e)
add_days-add (suc a) b d =
    rw (let e : suc a + b ≡ suc (a + b) = omega arith in e) (add_days-add a b (next_day d))

-- Inside a month the day number just grows.
pub add_days_within :
    (n : ℕ) (d : Date)
    → d.day + n ≤ days_in_month d.year d.month
    → add_days n d ≡ record d { day = d.day + n }
unfolding add_days next_day
add_days_within zero d h = ground arith
add_days_within (suc n) d h =
    let e : next_day d ≡ record d { day = d.day + 1 } = ground arith in
    let rest = add_days_within n (record d { day = d.day + 1 }) (omega arith) in
    rw e (ground (arith, rest))

-- The next day is the first of the later dates.
pub next_day_least : (d u : Date) → IsDate u → date_ltb d u ≡ true → date_leb (next_day d) u ≡ true
unfolding next_day
next_day_least d u v h =
    let same : (d.year ≡ u.year)
        → (d.month ≡ u.month)
        → days_in_month u.year u.month ≡ days_in_month d.year d.month =
      λ p q. cc in
    ground (arith, same)
