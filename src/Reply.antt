-- ===== src/Reply.antt =====
-- Backend/application/operations/reply_understanding.py: reading one customer reply. Jev is a
-- service: its answers are an argument, `none` where it is unavailable. Probabilities are in
-- ten-thousandths. This file has `_verdict`, `Understanding` the readings.
pub mod Understanding
pub mod Verdict
pub mod Reading
use recova.Prelude.{
  ℕ, Bool, true, false, ◌&&◌, ◌||◌, not, Option, none, some, List, [], ◌∷◌, any, all, leb, ltb,
  ◌==◌, is_some, if◌then◌else◌,
}
use recova.Prelude.Text.{Text, codes, is_in}
use recova.Constants.{StoppingRule, same_rule}
use recova.Compliance.{
  Disposition, MessageVerdict, Reason, asked_to_cancel, opted_out, raised_dispute,
  no_stopping_intent, judged, keyword_unsure, possible, says_already_paid, describes_hardship,
  screen_user_message,
}
use recova.Dates.{Date, days_in_month, add_days, nth_of_month}
use recova.Promise.{extract_p2p_date}

abbrev pub stop_gate : ℕ
stop_gate = 5000

abbrev pub review_floor : ℕ
review_floor = 3500

abbrev pub keyword_overrule_max : ℕ
keyword_overrule_max = 2000

abbrev pub manipulation_gate : ℕ
manipulation_gate = 5000

abbrev pub already_paid_gate : ℕ
already_paid_gate = 5000

abbrev pub hardship_gate : ℕ
hardship_gate = 5000

abbrev pub commit_gate : ℕ
commit_gate = 5000

-- The probabilities that `read_reply` asks for.
pub record Probabilities : Type 0 where
  pub wants_cancel : ℕ
  pub wants_no_contact : ℕ
  pub disputes_charge : ℕ
  pub manipulation : ℕ
  pub claims_already_paid : ℕ
  pub hardship : ℕ
  pub commits_to_pay : ℕ

-- a row of `_STOP_RULES`, with the probability under its key
pub record StopRule : Type 0 where
  pub p : ℕ
  pub rule : StoppingRule
  pub disposition : Disposition
  pub reason : Reason

-- `_STOP_RULES`, in its order
abbrev pub stop_rules : Probabilities → List StopRule
stop_rules p =
    record {
      p = p.wants_cancel;
      rule = StoppingRule.explicit_cancel;
      disposition = Disposition.terminate;
      reason = asked_to_cancel;
    }
    ∷ record {
      p = p.wants_no_contact;
      rule = StoppingRule.opt_out;
      disposition = Disposition.terminate;
      reason = opted_out;
    }
    ∷ record {
      p = p.disputes_charge;
      rule = StoppingRule.dispute_freeze;
      disposition = Disposition.escalate;
      reason = raised_dispute;
    }
    ∷ []

-- The first row whose probability reaches the gate.
abbrev pub first_at : ℕ → List StopRule → Option StopRule
first_at gate [] = none
first_at gate (r ∷ rs) = if leb gate r.p then some r else first_at gate rs

-- The note beside a verdict on a keyword hit.
pub data Note : Type 0 where
  keyword_kept : ℕ → Note
  keyword_overruled : StoppingRule → ℕ → Note

-- `next(k for k, rule, *_ in _STOP_RULES if rule == keyword.rule)`; `none` is StopIteration
abbrev pub row_for : StoppingRule → List StopRule → Option StopRule
row_for rule [] = none
row_for rule (r ∷ rs) = if same_rule r.rule rule then some r else row_for rule rs

abbrev pub held : StoppingRule → Reason → MessageVerdict
held rule reason = record { disposition = Disposition.escalate; rule = some rule; reason = reason }

-- the tail of `_verdict`: the review band, then already-paid, then hardship
unfoldable pub review : Probabilities → MessageVerdict
review p = elim (first_at review_floor (stop_rules p)) [
  | some r ↦ held StoppingRule.human_review (possible r.rule r.p)
  | none ↦
      if leb already_paid_gate p.claims_already_paid
      then held StoppingRule.no_double_charge (says_already_paid p.claims_already_paid)
      else if leb hardship_gate p.hardship
      then held StoppingRule.human_review (describes_hardship p.hardship)
      else record { disposition = Disposition.continue; rule = none; reason = no_stopping_intent }
]

-- the branch of `_verdict` on a keyword hit, once the row of its rule is found
unfoldable pub weigh_keyword :
    Probabilities → MessageVerdict → StopRule → MessageVerdict × Option Note
unfolding review
weigh_keyword p keyword r =
    if leb manipulation_gate p.manipulation
    then (keyword, some (keyword_kept p.manipulation))
    else if leb keyword_overrule_max r.p
    then (held StoppingRule.human_review (keyword_unsure r.rule r.p), none)
    else (review p, some (keyword_overruled r.rule r.p))

-- the keyword branch; a hit whose rule has no row would raise StopIteration
abbrev pub on_keyword :
    Probabilities → MessageVerdict → Option StoppingRule → Option (MessageVerdict × Option Note)
on_keyword p keyword none = none
on_keyword p keyword (some rule) = elim (row_for rule (stop_rules p)) [
  | none ↦ none
  | some r ↦ some (weigh_keyword p keyword r)
]

abbrev pub below_gate :
    Probabilities → MessageVerdict → Disposition → Option (MessageVerdict × Option Note)
below_gate p keyword Disposition.continue = some (review p, none)
below_gate p keyword _ = on_keyword p keyword keyword.rule

-- `_verdict`
unfoldable pub verdict_of : Probabilities → MessageVerdict → Option (MessageVerdict × Option Note)
unfolding review weigh_keyword
verdict_of p keyword = elim (first_at stop_gate (stop_rules p)) [
  | some r ↦ some (
    record { disposition = r.disposition; rule = some r.rule; reason = judged r.reason r.p },
    none,
  )
  | none ↦ below_gate p keyword keyword.disposition
]
