-- ===== src/Tests/Reports.antt =====
-- Concrete reports, checks of the daily cap and routes.
use recova.Prelude.{
  ◌≡◌, ◌≤◌, refl, true, false, none, some, [], ◌∷◌, min, length, or_else, is_some, inl, ◌+◌,
}
use recova.Prelude.Text.{codes}
use recova.Constants.{LifecycleState, StoppingRule}
use recova.Database.{Ticket, Sentence}
use recova.Policy.{approved_by_policy}
use recova.Limiter.{allowed_among, count_on}
use recova.Limiter.Cap.{allowed_among-cap}
use recova.Report.{Timed, stopping_rules}
use recova.Report.Series.{compute_metrics}
use recova.Report.Totals.{
  over_classes, final_total, compute_metrics-partition, compute_metrics-scoped, time_series-total,
}
use recova.Router.{Task, Stakes, tier_index, explain_route, floor_of, raised_by, call}
use recova.Router.Tiers.{explain_route-tier_index, call-bounded, call-answers}
use recova.Tests.Samples.{case_7}

allowed_among-cap_example :
    ((allowed_among 5 3 4 []).0 ≡ 3) × (or_else (count_on 5 (allowed_among 5 3 4 []).1) 0 ≡ 3)
unfolding count_on
allowed_among-cap_example = allowed_among-cap 5 3 4 [] refl

abbrev waiting_row : Timed
waiting_row = record { txn = case_7; created_at = 100; updated_at = 200; updated_on = 1 }

abbrev recovered_row : Timed
recovered_row = record waiting_row {
  txn = record case_7 { transaction_id = 8; current_state = LifecycleState.recovered };
  updated_on = 2;
}

abbrev simulated_row : Timed
simulated_row = record waiting_row {
  txn = record case_7 {
    transaction_id = 9;
    metadata = record (case_7.metadata) { simulation_run_id = some 4 };
  };
}

compute_metrics-partition_example :
    let m = compute_metrics none (waiting_row ∷ recovered_row ∷ []) [] [] in
    (over_classes (λ fc. (m.by_class fc).at_risk) ≡ m.at_risk)
    × (over_classes (λ fc. (m.by_class fc).recovered) ≡ m.recovered)
    × (m.recovered ≤ m.at_risk)
compute_metrics-partition_example =
    compute_metrics-partition none (waiting_row ∷ recovered_row ∷ []) [] []

time_series-total_example :
    let m = compute_metrics none (waiting_row ∷ recovered_row ∷ []) [] [] in
    final_total 0 m.time_series ≡ m.recovered
time_series-total_example = time_series-total none (waiting_row ∷ recovered_row ∷ []) [] []

compute_metrics-scoped_example :
    compute_metrics none (waiting_row ∷ simulated_row ∷ []) [] []
    ≡ compute_metrics none (waiting_row ∷ []) [] []
compute_metrics-scoped_example =
    compute_metrics-scoped none (waiting_row ∷ []) (simulated_row ∷ []) [] [] [] [] refl refl refl

abbrev review_ticket : Ticket
review_ticket = record {
  transaction_id = case_7.transaction_id;
  reason = Sentence.policy approved_by_policy;
  rule = some StoppingRule.human_review;
}

-- A ticket for a review is counted under its rule.
review_counted : stopping_rules [] (review_ticket ∷ []) StoppingRule.human_review ≡ 1
unfolding stopping_rules
review_counted = refl

abbrev stakes : Stakes
stakes = record {
  threshold_minor = 5000000;
  amount_minor = 9000000;
  retries_used = 2;
  max_retries = 3;
  voice_attempts = 0;
  voice_attempt_cap = 2;
  discount_pct = none;
  policy_cap_pct = none;
  live = true;
}

explain_route-tier_index_example :
    tier_index (explain_route Task.draft stakes)
    ≡ min (tier_index (floor_of Task.draft true) + length (raised_by stakes)) 2
explain_route-tier_index_example = explain_route-tier_index Task.draft stakes

call-bounded_example :
    length (call (λ _. some (codes "?")) (λ _. false) none Task.converse stakes).0 ≤ 4
call-bounded_example = call-bounded (λ _. some (codes "?")) (λ _. false) none Task.converse stakes

call-answers_example :
    is_some (call (λ _. some (codes "?")) (λ _. false) none Task.converse stakes).1 ≡ true
call-answers_example =
    call-answers (λ _. some (codes "?")) (λ _. false) none Task.converse stakes (inl refl)
      (inl refl)
