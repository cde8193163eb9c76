-- ===== src/Draft.antt =====
-- Backend/application/operations/draft_guard.py: `check_draft`, on the amounts and the percentages that
-- its two patterns find in the draft and on Jev's answers. Amounts are paise, percentages hundredths
-- of a percent, probabilities ten-thousandths; the label of an amount is its whole rupees.
use recova.Prelude.{
  ℕ, ◌+◌, ◌*◌, Bool, true, false, not, ◌&&◌, ◌||◌, Option, none, some, List, [], ◌∷◌, ◌++◌, any,
  ltb, leb, ◌==◌, if◌then◌else◌,
}
use recova.Policy.{Sandbox, round_half_even}
pub mod Fit

abbrev pub coercive_gate : ℕ
coercive_gate = 5000

abbrev pub off_topic_gate : ℕ
off_topic_gate = 5000

abbrev pub leak_gate : ℕ
leak_gate = 5000

abbrev pub concession_gate : ℕ
concession_gate = 5000

-- The reasons that `check_draft` gives, with the figures that they quote.
pub data Reason : Type 0 where
  above_bill : Reason
  coercive off_topic leaks_internal : ℕ → Reason
  beyond_cap : ℕ → Reason
  partial_not_allowed below_policy_minimum : Reason

-- Jev's answers; `upfront_amount` is the label of the amount to pay now, if one is picked.
pub record Judgments : Type 0 where
  pub coercive : ℕ
  pub off_topic : ℕ
  pub leaks_internal : ℕ
  pub promises_discount : ℕ
  pub agrees_to_partial : ℕ
  pub upfront_amount : Option ℕ

pub record GuardResult : Type 0 where
  pub ok : Bool
  pub reasons : List Reason
  pub judgments : Option Judgments

-- `any(a > amount_inr + 0.5 for a in amounts)`
unfoldable pub mentions_more : ℕ → List ℕ → Bool
mentions_more bill amounts = any (λ a. ltb (bill + 50) a) amounts

-- `f"₹{a:,.0f}"`
abbrev pub label_of : ℕ → ℕ
label_of a = round_half_even a 100

abbrev pub replaced_by : Option ℕ → Option ℕ → Option ℕ
replaced_by earlier none = earlier
replaced_by earlier (some a) = some a

-- `candidates.get(label)`: a later amount replaces an earlier one with the same label
unfoldable pub candidate : List ℕ → ℕ → Option ℕ
candidate [] label = none
candidate (a ∷ rest) label =
    replaced_by (if label_of a == label then some a else none) (candidate rest label)

-- the amount to pay now
abbrev pub upfront_of : List ℕ → Option ℕ → Option ℕ
upfront_of amounts none = none
upfront_of amounts (some label) = candidate amounts label

-- `upfront is not None and upfront < floor - 0.5`
abbrev pub below_floor : ℕ → ℕ → Option ℕ → Bool
below_floor bill pct none = false
below_floor bill pct (some a) = ltb (100 * a + 5000) (bill * pct)

abbrev pub flag : Bool → Reason → List Reason
flag test reason = if test then reason ∷ [] else []

-- the test of a promised discount
unfoldable pub overpromises : Sandbox → List ℕ → Judgments → Bool
overpromises p percents j =
    leb concession_gate j.promises_discount
    && (p.max_discount_pct == 0 || any (λ d. ltb (p.max_discount_pct * 100) d) percents)

-- the two tests of a partial payment
unfoldable pub refused_partial : Sandbox → Judgments → Bool
refused_partial p j = leb concession_gate j.agrees_to_partial && not p.allow_partial_payment

unfoldable pub small_partial : Sandbox → ℕ → List ℕ → Judgments → Bool
small_partial p bill amounts j =
    leb concession_gate j.agrees_to_partial
    && p.allow_partial_payment
    && below_floor bill p.min_partial_payment_pct (upfront_of amounts j.upfront_amount)

-- the reasons on Jev's side
unfoldable pub judged : Sandbox → ℕ → List ℕ → List ℕ → Option Judgments → List Reason
judged p bill amounts percents none = []
judged p bill amounts percents (some j) =
    flag (leb coercive_gate j.coercive) (Reason.coercive j.coercive)
    ++ flag (leb off_topic_gate j.off_topic) (Reason.off_topic j.off_topic)
    ++ flag (leb leak_gate j.leaks_internal) (Reason.leaks_internal j.leaks_internal)
    ++ flag (overpromises p percents j) (Reason.beyond_cap p.max_discount_pct)
    ++ flag (refused_partial p j) Reason.partial_not_allowed
    ++ flag (small_partial p bill amounts j) Reason.below_policy_minimum

abbrev pub is_empty : List Reason → Bool
is_empty [] = true
is_empty (_ ∷ _) = false

-- `check_draft`
unfoldable pub check_draft : Sandbox → ℕ → List ℕ → List ℕ → Option Judgments → GuardResult
check_draft p bill amounts percents judgments =
    let reasons =
      flag (mentions_more bill amounts) Reason.above_bill
      ++ judged p bill amounts percents judgments in
    record { ok = is_empty reasons; reasons = reasons; judgments = judgments }
