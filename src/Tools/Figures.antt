-- ===== src/Tools/Figures.antt =====
-- agent_tools.py: the fields that `decide_tool` reads from the model's answer, and the numbers among
-- them. The answer is what `json.loads` returns, so a number may be infinite, a NaN, or an integer
-- that no float holds.
use recova.Prelude.{
  ℕ, zero, suc, ◌+◌, ◌-◌, ◌*◌, min, max, Bool, Option, none, some, leb, if◌then◌else◌,
}
use recova.Prelude.Int.{
  ℤ, pos, negsuc, pos_part, neg_part, Number, finite, infinity, minus_infinity, nan,
}
use recova.Prelude.Text.{Text}
use recova.Prelude.Outcome.{Result, ok, err, value_error, overflow_error}
use recova.Constants.{AgentTool}

-- What is read from the model's answer. A field is absent, no number, or a number; discounts are
-- hundredths of a percent, amounts paise.
pub record ToolPayload : Type 0 where
  pub tool : Option AgentTool
  pub reason : Text
  pub message : Option Text
  pub discount_pct : Option (Option Number)
  pub partial_amount_inr : Option (Option Number)
  pub amount_inr : Option (Option Number)
  pub deadline_days : Option (Option Number)

abbrev pub power_of_two : ℕ → ℕ
power_of_two zero = 1
power_of_two (suc n) = 2 * power_of_two n

-- The first integer that `float` rounds past its range.
unfoldable pub float_limit : ℕ
float_limit = power_of_two 1024 - power_of_two 970

abbrev pub magnitude : ℤ → ℕ
magnitude z = pos_part z + neg_part z

-- `float(n)` raises OverflowError; the number is in hundredths
unfoldable pub overflows : ℤ → Bool
overflows z = leb (float_limit * 100) (magnitude z)

-- `int(raw) if float(raw).is_integer() else float(raw)`
abbrev pub as_percentage : Number → Result (Option Number)
as_percentage (finite z) = if overflows z then err overflow_error else ok (some (finite z))
as_percentage n = ok (some n)

abbrev pub kept_discount : Option Number → Result (Option Number)
kept_discount none = ok none
kept_discount (some n) = as_percentage n

-- `payload.get("discount_pct", route_discount)`, kept if it is a number
abbrev pub read_discount : Option (Option Number) → Option Number → Result (Option Number)
read_discount none route_discount = kept_discount route_discount
read_discount (some raw) route_discount = kept_discount raw

-- `round(max(0.01, min(raw, amount_inr)) * 100)`, on an integral number of paise
unfoldable pub clamped_amount : ℕ → ℤ → ℕ
clamped_amount amount_minor (pos raw) = max 1 (min raw amount_minor)
clamped_amount amount_minor (negsuc _) = 1

-- the same on any number: `min` keeps a NaN and `max` drops it
abbrev pub amount_of : ℕ → Number → Result (Option ℕ)
amount_of amount_minor (finite z) =
    if overflows z then err overflow_error else ok (some (clamped_amount amount_minor z))
amount_of amount_minor infinity = ok (some (max 1 amount_minor))
amount_of amount_minor minus_infinity = ok (some 1)
amount_of amount_minor nan = ok (some 1)

-- the amount that is read from the answer
abbrev pub read_amount : Option (Option Number) → Option (Option Number) → ℕ → Result (Option ℕ)
read_amount (some (some raw)) other amount_minor = amount_of amount_minor raw
read_amount (some none) other amount_minor = ok none
read_amount none (some (some raw)) amount_minor = amount_of amount_minor raw
read_amount none _ amount_minor = ok none

-- `max(1, min(int(raw_deadline), 90))`
unfoldable pub clamped_deadline : ℤ → ℕ
clamped_deadline (pos raw) = max 1 (min raw 90)
clamped_deadline (negsuc _) = 1

-- `int` raises on what is not finite
abbrev pub deadline_of : Number → Result (Option ℕ)
deadline_of (finite z) = ok (some (clamped_deadline z))
deadline_of infinity = err overflow_error
deadline_of minus_infinity = err overflow_error
deadline_of nan = err value_error

abbrev pub read_deadline : Option (Option Number) → Result (Option ℕ)
read_deadline (some (some raw)) = deadline_of raw
read_deadline _ = ok none

-- The figures of an answer.
pub record Figures : Type 0 where
  pub discount_pct : Option Number
  pub request_amount_minor : Option ℕ
  pub deadline_days : Option ℕ

-- The first conversion that raises ends the call.
abbrev pub figures_of :
    Result (Option Number) → Result (Option ℕ) → Result (Option ℕ) → Result Figures
figures_of (err e) amount deadline = err e
figures_of (ok d) (err e) deadline = err e
figures_of (ok d) (ok n) (err e) = err e
figures_of (ok d) (ok n) (ok days) =
    ok (record { discount_pct = d; request_amount_minor = n; deadline_days = days })

-- the conversions, in their order
unfoldable pub read_figures : ToolPayload → Option Number → ℕ → Result Figures
read_figures payload route_discount amount_minor =
    figures_of (read_discount payload.discount_pct route_discount)
      (read_amount payload.partial_amount_inr payload.amount_inr amount_minor)
      (read_deadline payload.deadline_days)
