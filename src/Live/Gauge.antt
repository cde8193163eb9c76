-- ===== src/Live/Gauge.antt =====
-- live_session.py: `_bounds`, the gauge of the session. A payload's keys are unique, so that the
-- first entry of a key is its value.
use recova.Prelude.{
  ℕ, Bool, true, false, ◌&&◌, ◌||◌, not, Option, none, some, List, [], ◌∷◌, ltb, leb, ◌==◌, any,
  keep, count_of, String, if◌then◌else◌,
}
use recova.Constants.{
  FailureClass, LifecycleState, ActionType, Channel, Action, StoppingRule, channel_value,
  same_string,
}
use recova.Dates.{Moment, next_quiet_hours_end}
use recova.Compliance.{is_within_quiet_hours}
use recova.Policy.{Sandbox}
use recova.Database.{Txn, AuditRow, Entry, is_dispatch, names_channel}
use recova.Live.Events.{Bounds}

-- `payload.get("action") == ...`, on the two actions that are asked for
abbrev pub is_call : Action → Bool
is_call Action.voice_call = true
is_call _ = false

abbrev pub is_charge : Action → Bool
is_charge Action.retry_charge = true
is_charge _ = false

abbrev pub names_action : (Action → Bool) → List Entry → Bool
names_action p [] = false
names_action p (Entry.action a ∷ rest) = p a
names_action p (_ ∷ rest) = names_action p rest

-- `payload.get("stopping_rule")`
abbrev pub rule_in : List Entry → Option StoppingRule
rule_in [] = none
rule_in (Entry.stopping_rule r ∷ rest) = some r
rule_in (_ ∷ rest) = rule_in rest

-- `used.add(payload["channel"])`: whether the channel of this value was used
abbrev pub used_value : String → List Entry → Bool
used_value v [] = false
used_value v (Entry.channel (some c) ∷ rest) = same_string (channel_value c) v
used_value v (Entry.channel none ∷ rest) = false
used_value v (_ ∷ rest) = used_value v rest

abbrev pub is_retry_row : ActionType → Bool
is_retry_row ActionType.retry_scheduled = true
is_retry_row _ = false

abbrev pub is_voice_row : AuditRow → Bool
is_voice_row row =
    is_dispatch row.action_type
    && (names_channel Channel.voice row.payload || names_action is_call row.payload)

-- what one row adds to `retries`
abbrev pub counts_as_retry : AuditRow → Bool
counts_as_retry row =
    (is_dispatch row.action_type && names_action is_charge row.payload)
    || is_retry_row row.action_type

abbrev pub first_rule : Option StoppingRule → List AuditRow → Option StoppingRule
first_rule (some r) rows = some r
first_rule none [] = none
first_rule none (row ∷ rows) = first_rule (rule_in row.payload) rows

abbrev pub is_used : List AuditRow → String → Bool
is_used rows v = any (λ row. is_dispatch row.action_type && used_value v row.payload) rows

-- `closed`
abbrev pub is_ended : LifecycleState → Bool
is_ended LifecycleState.recovered = true
is_ended LifecycleState.escalated = true
is_ended LifecycleState.cancelled = true
is_ended LifecycleState.failed = true
is_ended _ = false

abbrev pub is_mandate : FailureClass → Bool
is_mandate FailureClass.subscription_mandate = true
is_mandate _ = false

-- the `armed_rule` of a case that is not closed
unfoldable pub gauge_rule : Bool → ℕ → ℕ → FailureClass → Option StoppingRule
gauge_rule quiet retries voice fc =
    if quiet
    then some StoppingRule.trai_quiet_hours
    else if leb 3 retries
    then some StoppingRule.rbi_max_retries
    else if leb 2 voice
    then some StoppingRule.voice_attempt_cap
    else if is_mandate fc && ltb 0 retries
    then some StoppingRule.rbi_max_retries
    else if ltb 0 voice
    then some StoppingRule.voice_attempt_cap
    else none

abbrev pub of_case : ℕ → AuditRow → Bool
of_case key row = row.transaction_id == key

-- `_bounds`
unfoldable pub bounds_of : Sandbox → List AuditRow → Txn → Option StoppingRule → Moment → Bounds
bounds_of policy audits txn stopping_rule clock =
    let rows = keep (of_case txn.transaction_id) audits in
    let retries = count_of counts_as_retry rows in
    let voice = count_of is_voice_row rows in
    let closed = is_ended txn.current_state in
    let quiet = not closed && is_within_quiet_hours clock.hour in
    record {
      retries = retries;
      voice = voice;
      total_dispatches = count_of (λ row. is_dispatch row.action_type) rows;
      channels_used = keep (is_used rows) policy.allowed_channels;
      channels_remaining = keep (λ v. not (is_used rows v)) policy.allowed_channels;
      armed_rule = if closed then none else gauge_rule quiet retries voice txn.failure_class;
      fired_rule = first_rule stopping_rule rows;
      next_action_at = if quiet then some (next_quiet_hours_end clock) else none;
      in_quiet_hours = quiet;
      closed = closed;
    }
