-- ===== src/Limiter.antt =====
-- Backend/application/operations/rate_limiter.py: the daily cap on billable requests. A date's text is
-- a number, since it is only compared; a limit below 0 acts like 0.
pub mod Cap
use recova.Prelude.{
  ℕ, zero, suc, ◌-◌, Bool, true, false, ◌&&◌, not, Option, none, some, List, [], ◌∷◌, ◌++◌, ltb,
  ◌==◌, or_else, is_some, count_of, if◌then◌else◌,
}

-- `DailyApiUsage`; the date is the primary key
pub record Usage : Type 0 where
  pub usage_date : ℕ
  pub request_count : ℕ

-- `RateLimitResult`
pub record RateLimitResult : Type 0 where
  pub allowed : Bool
  pub count : ℕ
  pub limit : ℕ

-- `remaining`
unfoldable pub remaining : RateLimitResult → ℕ
remaining r = r.limit - r.count

abbrev pub is_day : ℕ → Usage → Bool
is_day today u = u.usage_date == today

-- `select(request_count).where(usage_date == today)`
unfoldable pub count_on : ℕ → List Usage → Option ℕ
count_on today [] = none
count_on today (u ∷ rest) = if is_day today u then some u.request_count else count_on today rest

-- the row of a new day
unfoldable pub with_day : ℕ → List Usage → List Usage
with_day today rows =
    if is_some (count_on today rows)
    then rows
    else rows ++ record { usage_date = today; request_count = 0 } ∷ []

-- the `where` of the update
abbrev pub is_below : ℕ → ℕ → Usage → Bool
is_below today limit u = is_day today u && ltb u.request_count limit

-- the update; its `rowcount` is the number of rows that it matches
unfoldable pub increment : ℕ → ℕ → List Usage → List Usage
increment today limit [] = []
increment today limit (u ∷ rest) =
    (if is_below today limit u then record u { request_count = suc u.request_count } else u)
    ∷ increment today limit rest

-- `check_and_increment`
unfoldable pub check_and_increment : ℕ → ℕ → List Usage → RateLimitResult × List Usage
check_and_increment today limit table =
    let rows = with_day today table in
    let after = increment today limit rows in
    (
      record {
        allowed = not (count_of (is_below today limit) rows == 0);
        count = or_else (count_on today after) 0;
        limit = limit;
      },
      after,
    )

-- How many of `n` checks in a row are allowed, and the table after them.
unfoldable pub allowed_among : ℕ → ℕ → ℕ → List Usage → ℕ × List Usage
allowed_among today limit zero table = (0, table)
allowed_among today limit (suc n) table =
    let (result, next) = check_and_increment today limit table in
    let (later, last) = allowed_among today limit n next in
    (if result.allowed then suc later else later, last)
