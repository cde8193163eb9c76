-- ===== src/Tools/Readable.antt =====
-- The numbers of a model's answer: which of them `decide_tool` can convert, and the bounds of what it
-- makes of them.
use recova.Prelude.{ℕ, ◌*◌, ◌≡◌, ◌≤◌, ◌<◌, refl, Option, none, some, max, arith, or_else}
use recova.Prelude.Int.{ℤ, pos, negsuc, Number, finite, infinity, minus_infinity, nan}
use recova.Prelude.Outcome.{Result, ok, err}
use recova.Tools.Figures.{
  ToolPayload, Figures, float_limit, magnitude, overflows, kept_discount, read_discount, amount_of,
  read_amount, clamped_amount, clamped_deadline, deadline_of, read_deadline, figures_of,
  read_figures,
}

clamped_amount-bounds :
    (total : ℕ) (z : ℤ) → (1 ≤ clamped_amount total z) × (clamped_amount total z ≤ max 1 total)
unfolding clamped_amount
clamped_amount-bounds total (pos n) = (omega arith, omega arith)
clamped_amount-bounds total (negsuc n) = (omega arith, omega arith)

clamped_deadline-bounds : (z : ℤ) → (1 ≤ clamped_deadline z) × (clamped_deadline z ≤ 90)
unfolding clamped_deadline
clamped_deadline-bounds (pos n) = (omega arith, omega arith)
clamped_deadline-bounds (negsuc n) = (omega arith, omega arith)

amount_of-bounds :
    (total : ℕ) (x : Number) (n : ℕ) → amount_of total x ≡ ok (some n) → (1 ≤ n) × (n ≤ max 1 total)
amount_of-bounds total (finite z) n h = ground (arith, clamped_amount-bounds total z)
amount_of-bounds total infinity n h = ground arith
amount_of-bounds total minus_infinity n h = ground arith
amount_of-bounds total nan n h = ground arith

pub read_amount-bounds :
    (wanted other : Option (Option Number)) (total n : ℕ)
    → read_amount wanted other total ≡ ok (some n)
    → (1 ≤ n) × (n ≤ max 1 total)
read_amount-bounds (some (some x)) other total n h = amount_of-bounds total x n h
read_amount-bounds (some none) other total n h = ground arith
read_amount-bounds none (some (some x)) total n h = amount_of-bounds total x n h
read_amount-bounds none (some none) total n h = ground arith
read_amount-bounds none none total n h = ground arith

deadline_of-bounds : (x : Number) (n : ℕ) → deadline_of x ≡ ok (some n) → (1 ≤ n) × (n ≤ 90)
deadline_of-bounds (finite z) n h = ground (arith, clamped_deadline-bounds z)
deadline_of-bounds infinity n h = ground arith
deadline_of-bounds minus_infinity n h = ground arith
deadline_of-bounds nan n h = ground arith

pub read_deadline-bounds :
    (o : Option (Option Number)) (n : ℕ) → read_deadline o ≡ ok (some n) → (1 ≤ n) × (n ≤ 90)
read_deadline-bounds (some (some x)) n h = deadline_of-bounds x n h
read_deadline-bounds (some none) n h = ground arith
read_deadline-bounds none n h = ground arith

figures_of-parts :
    (d : Result (Option Number)) (amount deadline : Result (Option ℕ)) (f : Figures)
    → figures_of d amount deadline ≡ ok f
    → (amount ≡ ok f.request_amount_minor) × (deadline ≡ ok f.deadline_days)
figures_of-parts (err e) amount deadline f h = ground arith
figures_of-parts (ok d) (err e) deadline f h = ground arith
figures_of-parts (ok d) (ok n) (err e) f h = ground arith
figures_of-parts (ok d) (ok n) (ok days) f h = (ground arith, ground arith)

-- The parts of the figures that were read.
pub read_figures-parts :
    (payload : ToolPayload) (discount : Option Number) (total : ℕ) (f : Figures)
    → read_figures payload discount total ≡ ok f
    → (read_amount payload.partial_amount_inr payload.amount_inr total ≡ ok f.request_amount_minor)
      × (read_deadline payload.deadline_days ≡ ok f.deadline_days)
unfolding read_figures
read_figures-parts payload discount total f h =
    figures_of-parts (read_discount payload.discount_pct discount) _ _ f h

-- The number is one that `float` takes, whether finite or not.
abbrev pub Floats : Option Number → Type 0
Floats (some (finite z)) = magnitude z < float_limit * 100
Floats _ = Unit

-- The number is one that `int` takes.
abbrev pub IsWhole : Option Number → Type 0
IsWhole (some infinity) = ⊥
IsWhole (some minus_infinity) = ⊥
IsWhole (some nan) = ⊥
IsWhole _ = Unit

-- The numbers of an answer are ones that the code converts; the amount is the first of its two keys
-- that is there.
pub record IsReadable (payload : ToolPayload) (discount : Option Number) : Type 0 where
  pub discount_floats : Floats (or_else payload.discount_pct discount)
  pub amount_floats : Floats (or_else payload.partial_amount_inr (or_else payload.amount_inr none))
  pub deadline_whole : IsWhole (or_else payload.deadline_days none)

kept_discount-ok : (o : Option Number) → Floats o → (d : Option Number) × (kept_discount o ≡ ok d)
unfolding overflows
kept_discount-ok none h = (_, refl)
kept_discount-ok (some (finite z)) h = (some (finite z), ground arith)
kept_discount-ok (some infinity) h = (_, refl)
kept_discount-ok (some minus_infinity) h = (_, refl)
kept_discount-ok (some nan) h = (_, refl)

read_discount-ok :
    (o : Option (Option Number)) (route : Option Number)
    → Floats (or_else o route)
    → (d : Option Number) × (read_discount o route ≡ ok d)
read_discount-ok none route h = kept_discount-ok route h
read_discount-ok (some raw) route h = kept_discount-ok raw h

amount_of-ok :
    (total : ℕ) (x : Number) → Floats (some x) → (n : Option ℕ) × (amount_of total x ≡ ok n)
unfolding overflows
amount_of-ok total (finite z) h = (some (clamped_amount total z), ground arith)
amount_of-ok total infinity h = (_, refl)
amount_of-ok total minus_infinity h = (_, refl)
amount_of-ok total nan h = (_, refl)

read_amount-ok :
    (wanted other : Option (Option Number)) (total : ℕ)
    → Floats (or_else wanted (or_else other none))
    → (n : Option ℕ) × (read_amount wanted other total ≡ ok n)
read_amount-ok (some (some x)) other total h = amount_of-ok total x h
read_amount-ok (some none) other total h = (_, refl)
read_amount-ok none (some (some x)) total h = amount_of-ok total x h
read_amount-ok none (some none) total h = (_, refl)
read_amount-ok none none total h = (_, refl)

read_deadline-ok :
    (o : Option (Option Number))
    → IsWhole (or_else o none)
    → (n : Option ℕ) × (read_deadline o ≡ ok n)
read_deadline-ok none h = (_, refl)
read_deadline-ok (some none) h = (_, refl)
read_deadline-ok (some (some (finite z))) h = (_, refl)
read_deadline-ok (some (some infinity)) h = elim h [ ]
read_deadline-ok (some (some minus_infinity)) h = elim h [ ]
read_deadline-ok (some (some nan)) h = elim h [ ]

pub read_figures-ok :
    (payload : ToolPayload) (discount : Option Number) (total : ℕ)
    → IsReadable payload discount
    → (f : Figures) × (read_figures payload discount total ≡ ok f)
unfolding read_figures
read_figures-ok payload discount total h =
    let (d, ed) = read_discount-ok payload.discount_pct discount h.discount_floats in
    let (n, en) =
      read_amount-ok payload.partial_amount_inr payload.amount_inr total h.amount_floats in
    let (days, el) = read_deadline-ok payload.deadline_days h.deadline_whole in
    (
      record { discount_pct = d; request_amount_minor = n; deadline_days = days },
      rw (ed, en, el) refl,
    )
