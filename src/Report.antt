-- ===== src/Report.antt =====
-- Backend/application/operations/reconciliation_service.py: the figures of the dashboard. Sums stay
-- in paise, of which `_inr` prints a hundredth; a ratio is kept as its two terms. The time stamps
-- of a row stand beside it: seconds, and the number of the day of its last change.
pub mod Series
pub mod Totals
pub mod Rules
use recova.Prelude.{
  ℕ, ◌+◌, ◌-◌, Bool, true, false, ◌&&◌, ◌||◌, Option, none, some, List, [], ◌∷◌, ltb, ◌==◌, any,
  keep, length, count_of, sum_of, or_else, is_some, if◌then◌else◌,
}
use recova.Constants.{FailureClass, LifecycleState, Channel, StoppingRule, Playbook, same_rule}
use recova.Database.{Txn, AuditRow, Ticket, Entry, is_dispatch, same_channel}
use recova.Live.Gauge.{rule_in}

pub record Timed : Type 0 where
  pub txn : Txn
  pub created_at : ℕ
  pub updated_at : ℕ
  pub updated_on : ℕ

-- `_is_at_risk`
abbrev pub is_at_risk : Timed → Bool
is_at_risk t = or_else t.txn.metadata.is_at_risk true

abbrev pub in_recovered : LifecycleState → Bool
in_recovered LifecycleState.recovered = true
in_recovered _ = false

abbrev pub in_flight : LifecycleState → Bool
in_flight LifecycleState.intervening = true
in_flight LifecycleState.waiting = true
in_flight _ = false

abbrev pub in_failed : LifecycleState → Bool
in_failed LifecycleState.failed = true
in_failed _ = false

abbrev pub in_escalated : LifecycleState → Bool
in_escalated LifecycleState.escalated = true
in_escalated _ = false

abbrev pub in_cancelled : LifecycleState → Bool
in_cancelled LifecycleState.cancelled = true
in_cancelled _ = false

-- a row in a state; `_recovered` is this on the recovered state
abbrev pub is_in : (LifecycleState → Bool) → Timed → Bool
is_in p t = p t.txn.current_state

abbrev pub amount_of : Timed → ℕ
amount_of t = t.txn.amount_minor

-- `_simulation_run_of(t) == simulation_run_id`
abbrev pub same_run : Option ℕ → Option ℕ → Bool
same_run none none = true
same_run (some a) (some b) = a == b
same_run _ _ = false

abbrev pub is_scoped : Option ℕ → Timed → Bool
is_scoped run t = same_run t.txn.metadata.simulation_run_id run

-- `transaction_id in scoped_ids`
abbrev pub has_key : ℕ → Timed → Bool
has_key key t = t.txn.transaction_id == key

abbrev pub is_listed : List Timed → ℕ → Bool
is_listed rows key = any (has_key key) rows

-- `_intervention_audits`
abbrev pub is_intervention : AuditRow → Bool
is_intervention a = is_dispatch a.action_type

abbrev pub playbook_in : List Entry → Option Playbook
playbook_in [] = none
playbook_in (Entry.playbook p ∷ rest) = some p
playbook_in (_ ∷ rest) = playbook_in rest

-- `_playbook_of`
unfoldable pub playbook_of : ℕ → List AuditRow → Option Playbook
playbook_of key [] = none
playbook_of key (a ∷ rest) =
    if is_intervention a && a.transaction_id == key
    then playbook_in a.payload
    else playbook_of key rest

unfoldable pub playbooks_of : List AuditRow → List Timed → List Playbook
playbooks_of audits [] = []
playbooks_of audits (t ∷ rest) =
    let later = playbooks_of audits rest in
    elim (playbook_of t.txn.transaction_id audits) [ none ↦ later | some p ↦ p ∷ later ]

abbrev pub same_playbook : Playbook → Playbook → Bool
same_playbook Playbook.reroute_rail Playbook.reroute_rail = true
same_playbook Playbook.preauth_link Playbook.preauth_link = true
same_playbook Playbook.upi_autopay_nudge Playbook.upi_autopay_nudge = true
same_playbook Playbook.negotiation Playbook.negotiation = true
same_playbook Playbook.salary_cycle_sequencer Playbook.salary_cycle_sequencer = true
same_playbook Playbook.mandate_refresh Playbook.mandate_refresh = true
same_playbook Playbook.p2p_tracker Playbook.p2p_tracker = true
same_playbook _ _ = false

-- `max(playbooks, key=playbooks.get)`: the first seen among those counted most
unfoldable pub most_frequent : List Playbook → Option Playbook → List Playbook → Option Playbook
most_frequent all best [] = best
most_frequent all none (p ∷ rest) = most_frequent all (some p) rest
most_frequent all (some b) (p ∷ rest) =
    most_frequent all
      (if ltb (count_of (same_playbook b) all) (count_of (same_playbook p) all)
        then some p
        else some b)
      rest

abbrev pub duration : Timed → ℕ
duration t = t.updated_at - t.created_at

-- `_avg_ttr`: the sum of the durations, and their number
unfoldable pub avg_ttr : List Timed → ℕ × ℕ
avg_ttr rows =
    let recovered = keep (is_in in_recovered) rows in (sum_of duration recovered, length recovered)

abbrev pub same_class : FailureClass → FailureClass → Bool
same_class FailureClass.realtime_degradation FailureClass.realtime_degradation = true
same_class FailureClass.checkout_abandonment FailureClass.checkout_abandonment = true
same_class FailureClass.subscription_mandate FailureClass.subscription_mandate = true
same_class FailureClass.b2b_receivables FailureClass.b2b_receivables = true
same_class _ _ = false

abbrev pub is_of_class : FailureClass → Timed → Bool
is_of_class fc t = same_class t.txn.failure_class fc

pub record ClassFigures : Type 0 where
  pub at_risk : ℕ
  pub recovered : ℕ
  pub count : ℕ
  pub recovered_count : ℕ
  pub top_playbook : Option Playbook
  pub avg_time_to_recovery : ℕ × ℕ

-- `_by_class`, at one class
unfoldable pub by_class : List Timed → List AuditRow → FailureClass → ClassFigures
by_class at_risk audits fc =
    let rows = keep (is_of_class fc) at_risk in
    let recovered = keep (is_in in_recovered) rows in
    let playbooks = playbooks_of audits rows in
    record {
      at_risk = sum_of amount_of rows;
      recovered = sum_of amount_of recovered;
      count = length rows;
      recovered_count = length recovered;
      top_playbook = most_frequent playbooks none playbooks;
      avg_time_to_recovery = avg_ttr recovered;
    }

pub record Funnel : Type 0 where
  pub at_risk : ℕ
  pub intervened : ℕ
  pub recovered : ℕ
  pub escalated : ℕ
  pub cancelled : ℕ
  pub failed : ℕ

abbrev pub intervened_on : List AuditRow → Timed → Bool
intervened_on audits t =
    any (λ a. is_intervention a && a.transaction_id == t.txn.transaction_id) audits

-- `_funnel`
unfoldable pub funnel : List Timed → List AuditRow → Funnel
funnel at_risk audits = record {
  at_risk = length at_risk;
  intervened = count_of (intervened_on audits) at_risk;
  recovered = count_of (is_in in_recovered) at_risk;
  escalated = count_of (is_in in_escalated) at_risk;
  cancelled = count_of (is_in in_cancelled) at_risk;
  failed = count_of (is_in in_failed) at_risk;
}

-- `a.payload.get("channel") or "PAYMENT_LINK"`
abbrev pub channel_of : List Entry → Channel
channel_of [] = Channel.payment_link
channel_of (Entry.channel (some c) ∷ rest) = c
channel_of (Entry.channel none ∷ rest) = Channel.payment_link
channel_of (_ ∷ rest) = channel_of rest

abbrev pub dispatched_by : Channel → AuditRow → Bool
dispatched_by c a = is_intervention a && same_channel (channel_of a.payload) c

-- `_channel_breakdown`, at one channel: the dispatches, and those of recovered cases
unfoldable pub channel_breakdown : List Timed → List AuditRow → Channel → ℕ × ℕ
channel_breakdown rows audits c =
    let recovered = keep (is_in in_recovered) rows in
    (
      count_of (dispatched_by c) audits,
      count_of (λ a. dispatched_by c a && is_listed recovered a.transaction_id) audits,
    )

abbrev pub names_rule : StoppingRule → Option StoppingRule → Bool
names_rule r none = false
names_rule r (some s) = same_rule s r

-- `_stopping_rules_by_name`, at one rule
unfoldable pub stopping_rules : List AuditRow → List Ticket → StoppingRule → ℕ
stopping_rules audits escalations r =
    count_of (λ a. names_rule r (rule_in a.payload)) audits
    + count_of (λ e. names_rule r e.rule) escalations

pub record Counts : Type 0 where
  pub total : ℕ
  pub interventions : ℕ
  pub escalations : ℕ
  pub stopping_rules_fired : ℕ
  pub recovered : ℕ
  pub cancelled : ℕ
  pub failed : ℕ

-- `_counts`
unfoldable pub counts_of : List Timed → List Ticket → List AuditRow → Counts
counts_of rows escalations audits = record {
  total = length rows;
  interventions = count_of is_intervention audits;
  escalations = length escalations;
  stopping_rules_fired = count_of (λ a. is_some (rule_in a.payload)) audits;
  recovered = count_of (is_in in_recovered) rows;
  cancelled = count_of (is_in in_cancelled) rows;
  failed = count_of (is_in in_failed) rows;
}
