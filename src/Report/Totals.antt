-- ===== src/Report/Totals.antt =====
-- The figures of the report against each other and against other runs' rows.
use recova.Prelude.{
  ℕ, ◌+◌, ◌≡◌, ◌≤◌, refl, ap, sym, ◌∙◌, Bool, false, Option, List, [], ◌∷◌, ◌++◌, arith, keep,
  keep-append, append-nil, sum_of, any, Bool-cases, inl, inr,
}
use recova.Constants.{FailureClass}
use recova.Database.{AuditRow, Ticket}
use recova.Report.{
  Timed, is_at_risk, is_in, in_recovered, amount_of, is_of_class, is_scoped, is_listed, by_class,
}
use recova.Report.Series.{
  add_to_day, per_day, Point, cumulate, time_series, measure, compute_metrics,
}

-- A sum over the rows is the sum over the four classes.
by_classes :
    (rows : List Timed)
    → sum_of amount_of rows
      ≡ sum_of amount_of (keep (is_of_class FailureClass.realtime_degradation) rows)
        + sum_of amount_of (keep (is_of_class FailureClass.checkout_abandonment) rows)
        + sum_of amount_of (keep (is_of_class FailureClass.subscription_mandate) rows)
        + sum_of amount_of (keep (is_of_class FailureClass.b2b_receivables) rows)
by_classes [] = omega arith
by_classes (t ∷ rest) = ground (arith, by_classes rest)

-- The sums of a figure over the four classes.
abbrev pub over_classes : (FailureClass → ℕ) → ℕ
over_classes f =
    f FailureClass.realtime_degradation
    + f FailureClass.checkout_abandonment
    + f FailureClass.subscription_mandate
    + f FailureClass.b2b_receivables

recovered_by_classes :
    (rows : List Timed)
    → over_classes (λ fc. sum_of amount_of (keep (is_in in_recovered) (keep (is_of_class fc) rows)))
      ≡ sum_of amount_of (keep (is_in in_recovered) rows)
recovered_by_classes [] = omega arith
recovered_by_classes (t ∷ rest) = ground (arith, recovered_by_classes rest)

sum_of-keep :
    (p : Timed → Bool) (rows : List Timed) → sum_of amount_of (keep p rows) ≤ sum_of amount_of rows
sum_of-keep p [] = omega arith
sum_of-keep p (t ∷ rest) = ground (arith, sum_of-keep p rest)

-- In every report the four classes share the sum at risk and the recovered sum between them, and the
-- recovered sum is at most the sum at risk.
pub compute_metrics-partition :
    (run : Option ℕ) (rows : List Timed) (audits : List AuditRow) (escalations : List Ticket)
    → let m = compute_metrics run rows audits escalations in
      (over_classes (λ fc. (m.by_class fc).at_risk) ≡ m.at_risk)
      × (over_classes (λ fc. (m.by_class fc).recovered) ≡ m.recovered)
      × (m.recovered ≤ m.at_risk)
unfolding compute_metrics measure by_class
compute_metrics-partition run rows audits escalations = (
  sym (by_classes _),
  recovered_by_classes (keep is_at_risk (keep (is_scoped run) rows)),
  sum_of-keep _ _,
)

-- The last cumulative figure, and 0 on an empty series.
abbrev pub final_total : ℕ → List Point → ℕ
final_total running [] = running
final_total running (p ∷ rest) = final_total p.cumulative rest

abbrev day_sum : ℕ × ℕ → ℕ
day_sum p = p.1

final_total-cumulate :
    (running : ℕ) (days : List (ℕ × ℕ))
    → final_total running (cumulate running days) ≡ running + sum_of day_sum days
unfolding cumulate
final_total-cumulate running [] = omega arith
final_total-cumulate running ((d, n) ∷ rest) = final_total-cumulate (running + n) rest ∙ omega arith

sum_of-add_to_day :
    (day amount : ℕ) (days : List (ℕ × ℕ))
    → sum_of day_sum (add_to_day day amount days) ≡ amount + sum_of day_sum days
unfolding add_to_day
sum_of-add_to_day day amount [] = refl
sum_of-add_to_day day amount ((d, n) ∷ rest) = ground (arith, sum_of-add_to_day day amount rest)

sum_of-per_day :
    (rows : List Timed)
    → sum_of day_sum (per_day rows) ≡ sum_of amount_of (keep (is_in in_recovered) rows)
unfolding per_day
sum_of-per_day [] = refl
sum_of-per_day (t ∷ rest) = elim (Bool-cases (is_in in_recovered t)) [
  | inl back ↦
      rw back (sum_of-add_to_day _ _ _ ∙ ap (λ n. t.txn.amount_minor + n) (sum_of-per_day rest))
  | inr gone ↦ rw gone (sum_of-per_day rest)
]

series_total :
    (rows : List Timed)
    → final_total 0 (time_series rows) ≡ sum_of amount_of (keep (is_in in_recovered) rows)
unfolding time_series
series_total rows = final_total-cumulate 0 (per_day rows) ∙ omega (arith, sum_of-per_day rows)

-- In every report the cumulative series ends at the recovered sum.
pub time_series-total :
    (run : Option ℕ) (rows : List Timed) (audits : List AuditRow) (escalations : List Ticket)
    → let m = compute_metrics run rows audits escalations in
      final_total 0 m.time_series ≡ m.recovered
unfolding compute_metrics measure
time_series-total run rows audits escalations = series_total _

-- Rows that fail a test are dropped wherever they are appended.
keep-none : {A : Type 0} (p : A → Bool) (xs : List A) → any p xs ≡ false → keep p xs ≡ []
keep-none p [] h = refl
keep-none p (x ∷ xs) h = ground (arith, keep-none p xs)

keep-appended :
    {A : Type 0} (p : A → Bool) (xs ys : List A) → any p ys ≡ false → keep p (xs ++ ys) ≡ keep p xs
keep-appended p xs ys h =
    keep-append p xs ys ∙ ap (λ t. keep p xs ++ t) (keep-none p ys h) ∙ append-nil _

-- Rows of other runs, with audits and tickets of cases that the report does not cover, change no
-- figure of it.
pub compute_metrics-scoped :
    (run : Option ℕ) (rows others : List Timed) (audits extra : List AuditRow)
    (escalations tickets : List Ticket)
    → any (is_scoped run) others ≡ false
    → any (λ (a : AuditRow). is_listed (keep (is_scoped run) rows) a.transaction_id) extra ≡ false
    → any (λ (e : Ticket). is_listed (keep (is_scoped run) rows) e.transaction_id) tickets ≡ false
    → compute_metrics run (rows ++ others) (audits ++ extra) (escalations ++ tickets)
      ≡ compute_metrics run rows audits escalations
unfolding compute_metrics
compute_metrics-scoped run rows others audits extra escalations tickets h i j =
    rw
      (
        keep-appended (is_scoped run) rows others h,
        keep-appended _ audits extra i,
        keep-appended _ escalations tickets j,
      )
      refl
