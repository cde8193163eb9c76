-- ===== src/Report/Series.antt =====
-- reconciliation_service.py: `_time_series` and `compute_metrics`.
use recova.Prelude.{ℕ, ◌+◌, Option, List, [], ◌∷◌, ltb, ◌==◌, keep, sum_of, if◌then◌else◌}
use recova.Constants.{FailureClass, Channel, StoppingRule}
use recova.Database.{AuditRow, Ticket}
use recova.Report.{
  Timed, is_at_risk, is_in, in_recovered, in_flight, in_failed, amount_of, is_scoped, is_listed,
  ClassFigures, by_class, Funnel, funnel, channel_breakdown, stopping_rules, Counts, counts_of,
  avg_ttr,
}

-- `per_day[day] += amount`, on a table that is sorted by day
unfoldable pub add_to_day : ℕ → ℕ → List (ℕ × ℕ) → List (ℕ × ℕ)
add_to_day day amount [] = (day, amount) ∷ []
add_to_day day amount ((d, n) ∷ rest) =
    let later = add_to_day day amount rest in
    if day == d
    then (d, n + amount) ∷ rest
    else if ltb day d
    then (day, amount) ∷ (d, n) ∷ rest
    else (d, n) ∷ later

-- the first loop of `_time_series`, with the sort of its days
unfoldable pub per_day : List Timed → List (ℕ × ℕ)
per_day [] = []
per_day (t ∷ rest) =
    let later = per_day rest in
    if is_in in_recovered t then add_to_day t.updated_on t.txn.amount_minor later else later

pub record Point : Type 0 where
  pub date : ℕ
  pub recovered : ℕ
  pub cumulative : ℕ

-- its second loop
unfoldable pub cumulate : ℕ → List (ℕ × ℕ) → List Point
cumulate running [] = []
cumulate running ((day, amount) ∷ rest) =
    record { date = day; recovered = amount; cumulative = running + amount }
    ∷ cumulate (running + amount) rest

-- `_time_series`
unfoldable pub time_series : List Timed → List Point
time_series at_risk = cumulate 0 (per_day at_risk)

pub record Metrics : Type 0 where
  pub at_risk : ℕ
  pub recovered : ℕ
  pub in_flight : ℕ
  pub lost : ℕ
  pub by_class : FailureClass → ClassFigures
  pub funnel : Funnel
  pub channel_breakdown : Channel → ℕ × ℕ
  pub time_series : List Point
  pub stopping_rules : StoppingRule → ℕ
  pub counts : Counts
  pub avg_time_to_recovery : ℕ × ℕ

-- The figures, on the rows of the scope; `grrr` is the quotient of the first two.
unfoldable pub measure : List Timed → List AuditRow → List Ticket → Metrics
measure transactions audits escalations =
    let at_risk = keep is_at_risk transactions in
    record {
      at_risk = sum_of amount_of at_risk;
      recovered = sum_of amount_of (keep (is_in in_recovered) at_risk);
      in_flight = sum_of amount_of (keep (is_in in_flight) at_risk);
      lost = sum_of amount_of (keep (is_in in_failed) at_risk);
      by_class = by_class at_risk audits;
      funnel = funnel at_risk audits;
      channel_breakdown = channel_breakdown transactions audits;
      time_series = time_series at_risk;
      stopping_rules = stopping_rules audits escalations;
      counts = counts_of transactions escalations audits;
      avg_time_to_recovery = avg_ttr at_risk;
    }

-- `compute_metrics`
unfoldable pub compute_metrics : Option ℕ → List Timed → List AuditRow → List Ticket → Metrics
compute_metrics run all_transactions all_audits all_escalations =
    let transactions = keep (is_scoped run) all_transactions in
    measure transactions (keep (λ a. is_listed transactions a.transaction_id) all_audits)
      (keep (λ e. is_listed transactions e.transaction_id) all_escalations)
