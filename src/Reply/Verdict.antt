-- ===== src/Reply/Verdict.antt =====
-- When a reply halts the case: the stop precedence, and what it takes to overrule the keywords.
use recova.Prelude.{
  ℕ, ◌<◌, ◌≡◌, ◌↔◌, refl, true, Option, none, some, arith, inl, inr, Bool-cases, is_some,
}
use recova.Prelude.Text.{Text, lower}
use recova.Constants.{StoppingRule}
use recova.Compliance.{
  Disposition, MessageVerdict, cancel_phrases, opt_out_phrases, dispute_phrases, mentions,
  screen_user_message,
}
use recova.Reply.{
  Probabilities, review_floor, keyword_overrule_max, manipulation_gate, already_paid_gate,
  hardship_gate, Note, verdict_of,
}

-- The probability that answers a rule's question.
abbrev pub judged_p : Probabilities → StoppingRule → ℕ
judged_p p StoppingRule.explicit_cancel = p.wants_cancel
judged_p p StoppingRule.opt_out = p.wants_no_contact
judged_p p StoppingRule.dispute_freeze = p.disputes_charge
judged_p p _ = 0

-- What the keyword screen leaves to be overruled.
abbrev pub Overruled : Probabilities → Option StoppingRule → Type 0
Overruled p none = Unit
Overruled p (some rule) =
    (p.manipulation < manipulation_gate) × (judged_p p rule < keyword_overrule_max)

-- All that it takes to go on with the case.
pub record IsClear (p : Probabilities) (keyword : Option StoppingRule) : Type 0 where
  pub no_cancel : p.wants_cancel < review_floor
  pub no_opt_out : p.wants_no_contact < review_floor
  pub no_dispute : p.disputes_charge < review_floor
  pub not_paid : p.claims_already_paid < already_paid_gate
  pub no_hardship : p.hardship < hardship_gate
  pub keyword_overruled : Overruled p keyword

-- What `screen_user_message` can return, as far as `_verdict` reads it.
data IsScreened : Disposition → Option StoppingRule → Type 0 where
  clean : IsScreened Disposition.continue none
  cancel : IsScreened Disposition.terminate (some StoppingRule.explicit_cancel)
  opt_out : IsScreened Disposition.terminate (some StoppingRule.opt_out)
  dispute : IsScreened Disposition.escalate (some StoppingRule.dispute_freeze)

screened :
    (text : Text)
    → IsScreened (screen_user_message text).disposition (screen_user_message text).rule
unfolding screen_user_message
screened text = elim (Bool-cases (mentions cancel_phrases (lower text))) [
  | inl yes_cancel ↦ rw yes_cancel cancel
  | inr no_cancel ↦ elim (Bool-cases (mentions opt_out_phrases (lower text))) [
    | inl stop ↦ rw (no_cancel, stop) opt_out
    | inr no_stop ↦ elim (Bool-cases (mentions dispute_phrases (lower text))) [
      | inl yes_dispute ↦ rw (no_cancel, no_stop, yes_dispute) dispute
      | inr no_dispute ↦ rw (no_cancel, no_stop, no_dispute) clean
    ]
  ]
]

-- What the caller gets to act on.
abbrev pub Continues : Option (MessageVerdict × Option Note) → Type 0
Continues none = ⊥
Continues (some (v, _)) = v.disposition ≡ Disposition.continue

Continues-iff :
    (p : Probabilities) (keyword : MessageVerdict) {d : Disposition} {r : Option StoppingRule}
    → IsScreened d r
    → keyword.disposition ≡ d
    → keyword.rule ≡ r
    → (Continues (verdict_of p keyword) → IsClear p r)
      × (IsClear p r → Continues (verdict_of p keyword))
unfolding verdict_of
Continues-iff p keyword clean ed er = (λ h. ground arith, λ h. ground arith)
Continues-iff p keyword cancel ed er = (λ h. ground arith, λ h. ground arith)
Continues-iff p keyword opt_out ed er = (λ h. ground arith, λ h. ground arith)
Continues-iff p keyword dispute ed er = (λ h. ground arith, λ h. ground arith)

-- A judged reply lets the case go on exactly if every stop probability is below the review floor,
-- already-paid and hardship are below their gates, and a keyword hit, if any, is overruled.
pub verdict-Continues_iff :
    (p : Probabilities) (text : Text)
    → Continues (verdict_of p (screen_user_message text))
      ↔ IsClear p (screen_user_message text).rule
verdict-Continues_iff p text = Continues-iff p (screen_user_message text) (screened text) refl refl

answered :
    (p : Probabilities) (keyword : MessageVerdict) {d : Disposition} {r : Option StoppingRule}
    → IsScreened d r
    → keyword.disposition ≡ d
    → keyword.rule ≡ r
    → is_some (verdict_of p keyword) ≡ true
unfolding verdict_of
answered p keyword clean ed er = ground arith
answered p keyword cancel ed er = ground arith
answered p keyword opt_out ed er = ground arith
answered p keyword dispute ed er = ground arith

-- On the screen's own verdict the lookup of the flagged rule's row never fails, so a verdict is
-- always returned.
pub verdict-total :
    (p : Probabilities) (text : Text) → is_some (verdict_of p (screen_user_message text)) ≡ true
verdict-total p text = answered p (screen_user_message text) (screened text) refl refl
