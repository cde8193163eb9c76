-- ===== src/Report/Rules.antt =====
-- The stopping rules of a report, summed over the rules.
use recova.Prelude.{
  ℕ, ◌+◌, ◌≡◌, refl, arith, List, [], ◌∷◌, Option, none, some, count_of, is_some, keep,
  if◌then◌else◌,
}
use recova.Constants.{StoppingRule}
use recova.Database.{AuditRow, Ticket}
use recova.Report.{names_rule, stopping_rules, counts_of, is_scoped, is_listed, Timed}
use recova.Report.Series.{measure, compute_metrics}
use recova.Live.Gauge.{rule_in}

-- The sum of a figure over the nine rules.
abbrev over_rules : (StoppingRule → ℕ) → ℕ
over_rules f =
    f StoppingRule.no_double_charge
    + f StoppingRule.cross_device_completion
    + f StoppingRule.rbi_max_retries
    + f StoppingRule.explicit_cancel
    + f StoppingRule.opt_out
    + f StoppingRule.dispute_freeze
    + f StoppingRule.trai_quiet_hours
    + f StoppingRule.voice_attempt_cap
    + f StoppingRule.human_review

-- Exactly one of the nine is the rule that is named, if one is.
named_once :
    (o : Option StoppingRule)
    → over_rules (λ r. if names_rule r o then 1 else 0) ≡ (if is_some o then 1 else 0)
named_once none = refl
named_once (some StoppingRule.no_double_charge) = refl
named_once (some StoppingRule.cross_device_completion) = refl
named_once (some StoppingRule.rbi_max_retries) = refl
named_once (some StoppingRule.explicit_cancel) = refl
named_once (some StoppingRule.opt_out) = refl
named_once (some StoppingRule.dispute_freeze) = refl
named_once (some StoppingRule.trai_quiet_hours) = refl
named_once (some StoppingRule.voice_attempt_cap) = refl
named_once (some StoppingRule.human_review) = refl

module _ {A : Type 0} (rule : A → Option StoppingRule) where
  abbrev ruled : List A → StoppingRule → ℕ
  ruled rows r = count_of (λ a. names_rule r (rule a)) rows

  over_rules-ruled :
      (rows : List A) → over_rules (ruled rows) ≡ count_of (λ a. is_some (rule a)) rows
  over_rules-ruled [] = refl
  over_rules-ruled (a ∷ rest) = omega (arith, named_once (rule a), over_rules-ruled rest)

abbrev covered_tickets : Option ℕ → List Timed → List Ticket → List Ticket
covered_tickets run rows = keep (λ e. is_listed (keep (is_scoped run) rows) e.transaction_id)

-- In every report the counts of the nine stopping rules add up to the rules that fired and the
-- tickets of its cases that name a rule.
compute_metrics-stopping_rules :
    (run : Option ℕ) (rows : List Timed) (audits : List AuditRow) (escalations : List Ticket)
    → let m = compute_metrics run rows audits escalations in
      over_rules m.stopping_rules
      ≡ m.counts.stopping_rules_fired
        + count_of (λ (e : Ticket). is_some e.rule) (covered_tickets run rows escalations)
unfolding compute_metrics measure counts_of stopping_rules
compute_metrics-stopping_rules run rows audits escalations =
    let covered = keep (is_scoped run) rows in
    omega (
      arith,
      over_rules-ruled (λ (a : AuditRow). rule_in a.payload)
          (keep (λ a. is_listed covered a.transaction_id) audits),
      over_rules-ruled (λ (e : Ticket). e.rule)
          (keep (λ e. is_listed covered e.transaction_id) escalations),
    )
