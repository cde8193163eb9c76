-- ===== src/Tools/Branches.antt =====
-- Backend/application/operations/agent_tools.py: the branches of `gate_tool`, and `gate_tool` itself.
use recova.Prelude.{
  Bool, true, false, ◌&&◌, ◌||◌, Option, none, some, [], ◌∷◌, ltb, or_else, is_some, if◌then◌else◌,
}
use recova.Prelude.Outcome.{Run, pure, raise, attribute_error, ◌>>=◌, ◌>>◌}
use recova.Constants.{LifecycleState, ActionType, Outcome, Channel, Action, StoppingRule, AgentTool}
use recova.Dates.{Date, next_quiet_hours_end, next_salary_window}
use recova.Compliance.{is_within_quiet_hours, retry_cap_exceeded, voice_attempts_exhausted}
use recova.Policy.{PolicyReason, ActionName, ChannelName, ProposedAction, Sandbox, validate}
use recova.Database.{Txn, Db, Sentence, Entry, enqueue_escalation, same_channel}
use recova.Tools.{tool_resolution, ToolRequest, AgentDecision, set_state, reason_or}

-- A decision that ends the turn, with the fields that those decisions leave at their defaults.
abbrev pub halting :
    AgentTool
    → AgentTool
    → Option Action
    → Option Channel
    → LifecycleState
    → Bool
    → Sentence
    → Option StoppingRule
    → Option Sentence
    → ToolRequest
    → AgentDecision
halting tool requested action channel state allowed reason rule sandbox_reason q = record {
  tool = tool;
  action = action;
  channel = channel;
  terminal_state = some state;
  allowed = allowed;
  reason = reason;
  stopping_rule = rule;
  model_reason = q.model_reason;
  sandbox_reason = sandbox_reason;
  message = q.message;
  discount_pct = q.discount_pct;
  requested_tool = requested;
  scheduled_for = none;
  request_amount_minor = none;
  deadline_days = none;
}

-- the branch of `gate_tool` on a handoff
unfoldable pub hand_off : Txn → ToolRequest → Run Db AgentDecision
hand_off txn q =
    let reason = reason_or q.model_reason Sentence.human_review_requested in
    do
      enqueue_escalation
          (record { transaction_id = txn.transaction_id; reason = reason; rule = none })
      set_state txn LifecycleState.escalated ActionType.escalation
          (Entry.agent_tool AgentTool.handoff_to_human ∷ Entry.reason reason ∷ []) Outcome.escalated
      pure (
          halting AgentTool.handoff_to_human AgentTool.handoff_to_human none none
            LifecycleState.escalated true reason none none q)

-- the branch of `gate_tool` on a stop
unfoldable pub stop_case : Txn → ToolRequest → Run Db AgentDecision
stop_case txn q =
    let reason = reason_or q.model_reason Sentence.agent_stopped in
    do
      set_state txn LifecycleState.cancelled ActionType.state_transition
          (Entry.agent_tool AgentTool.stop ∷ Entry.reason reason ∷ []) Outcome.success
      pure (
          halting AgentTool.stop AgentTool.stop none none LifecycleState.cancelled true reason none
            none q)

-- `action.value`
abbrev pub some_action : Option Action → Run Db Action
some_action none = raise attribute_error
some_action (some a) = pure a

-- the quiet-hours branch of `gate_tool`
unfoldable pub defer_tool :
    Txn → AgentTool → Option Action → Option Channel → ToolRequest → Run Db AgentDecision
defer_tool txn tool action channel q =
    let resume_at = next_quiet_hours_end q.clock in
    do
      deferred ← some_action action
      set_state txn LifecycleState.waiting ActionType.retry_scheduled
          (Entry.agent_tool tool
            ∷ Entry.stopping_rule StoppingRule.trai_quiet_hours
            ∷ Entry.reason (Sentence.quiet_hours resume_at)
            ∷ Entry.scheduled_at resume_at
            ∷ Entry.deferred_action deferred
            ∷ [])
          Outcome.success
      pure (
          halting tool tool action channel LifecycleState.waiting false
            (Sentence.quiet_hours resume_at) (some StoppingRule.trai_quiet_hours)
            (some (Sentence.quiet_hours resume_at)) q)

-- the two cap branches of `gate_tool`
unfoldable pub cap_tool :
    Txn
    → AgentTool
    → Option Action
    → Option Channel
    → StoppingRule
    → Sentence
    → ToolRequest
    → Run Db AgentDecision
cap_tool txn tool action channel rule reason q = do
  set_state txn LifecycleState.cancelled ActionType.state_transition
      (Entry.agent_tool tool ∷ Entry.stopping_rule rule ∷ Entry.reason reason ∷ []) Outcome.success
  pure (
      halting tool tool action channel LifecycleState.cancelled false reason (some rule)
        (some reason) q)

-- the branch of `gate_tool` on a refusal by the sandbox
unfoldable pub block_tool : Txn → AgentTool → PolicyReason → ToolRequest → Run Db AgentDecision
block_tool txn tool why q = do
  enqueue_escalation
      (record { transaction_id = txn.transaction_id; reason = Sentence.policy why; rule = none })
  set_state txn LifecycleState.escalated ActionType.escalation
      (Entry.agent_tool AgentTool.handoff_to_human
        ∷ Entry.requested_tool tool
        ∷ Entry.policy_block why
        ∷ [])
      Outcome.escalated
  pure (
      halting AgentTool.handoff_to_human tool none none LifecycleState.escalated false
        (Sentence.policy why) none (some (Sentence.policy why)) q)

abbrev pub is_schedule_retry : AgentTool → Bool
is_schedule_retry AgentTool.schedule_retry = true
is_schedule_retry _ = false

abbrev pub is_partial_plan : AgentTool → Bool
is_partial_plan AgentTool.offer_partial_plan = true
is_partial_plan _ = false

-- the end of `gate_tool`: the tool is allowed
unfoldable pub allow_tool :
    Txn
    → AgentTool
    → Option Action
    → Option Channel
    → Option LifecycleState
    → PolicyReason
    → ToolRequest
    → Run Db AgentDecision
allow_tool txn tool action channel state why q =
    let decision : Option Date → AgentDecision = λ scheduled. record {
      tool = tool;
      action = action;
      channel = channel;
      terminal_state = state;
      allowed = true;
      reason = Sentence.policy why;
      stopping_rule = none;
      model_reason = q.model_reason;
      sandbox_reason = some (Sentence.policy why);
      message = q.message;
      discount_pct = q.discount_pct;
      requested_tool = tool;
      scheduled_for = scheduled;
      request_amount_minor = some (or_else q.request_amount_minor txn.amount_minor);
      deadline_days = q.deadline_days;
    } in
    if is_schedule_retry tool
    then (do
      set_state txn LifecycleState.waiting ActionType.retry_scheduled
          (Entry.agent_tool tool
            ∷ Entry.scheduled_on (next_salary_window q.today)
            ∷ Entry.reason (reason_or q.model_reason Sentence.retry_scheduled)
            ∷ [])
          Outcome.success
      pure (decision (some (next_salary_window q.today))))
    else pure (decision none)

-- `str(action)` on a tool without an action
abbrev pub action_name : Option Action → ActionName
action_name none = ActionName.named "None"
action_name (some a) = ActionName.known a

abbrev pub channel_name : Option Channel → Option ChannelName
channel_name none = none
channel_name (some c) = some (ChannelName.known c)

-- The action that `gate_tool` puts to the sandbox.
unfoldable pub tool_proposal :
    Txn → AgentTool → Option Action → Option Channel → ToolRequest → ProposedAction
tool_proposal txn tool action channel q =
    let amount = or_else q.request_amount_minor txn.amount_minor in
    record {
      action = action_name action;
      channel = channel_name channel;
      discount_pct = q.discount_pct;
      amount_minor = some amount;
      total_amount_minor = some txn.amount_minor;
      is_partial = some (ltb amount txn.amount_minor || is_partial_plan tool);
    }

abbrev pub is_retry_charge : Option Action → Bool
is_retry_charge (some Action.retry_charge) = true
is_retry_charge _ = false

abbrev pub is_voice : Option Channel → Bool
is_voice none = false
is_voice (some c) = same_channel c Channel.voice

-- the guards of `gate_tool`, after the two short circuits
unfoldable pub gate_contact :
    Sandbox
    → Txn
    → AgentTool
    → Option Action
    → Option Channel
    → Option LifecycleState
    → ToolRequest
    → Run Db AgentDecision
gate_contact sandbox txn tool action channel state q =
    let decision = validate sandbox (tool_proposal txn tool action channel q) in
    if is_some channel && is_within_quiet_hours q.clock.hour
    then defer_tool txn tool action channel q
    else if is_retry_charge action && retry_cap_exceeded txn.retry_count txn.max_retries
    then cap_tool txn tool action channel StoppingRule.rbi_max_retries
        (Sentence.retry_cap txn.retry_count txn.max_retries) q
    else if is_voice channel && voice_attempts_exhausted q.voice_attempts
    then cap_tool txn tool action channel StoppingRule.voice_attempt_cap
        (Sentence.voice_cap q.voice_attempts) q
    else if decision.approved
    then allow_tool txn tool action channel state decision.reason q
    else block_tool txn tool decision.reason q

unfoldable pub gate_tool : Sandbox → Txn → AgentTool → ToolRequest → Run Db AgentDecision
gate_tool sandbox txn AgentTool.handoff_to_human q = hand_off txn q
gate_tool sandbox txn AgentTool.stop q = stop_case txn q
gate_tool sandbox txn tool q =
    let (action, channel, state) = tool_resolution tool in
    gate_contact sandbox txn tool action channel state q
