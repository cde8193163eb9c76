-- ===== src/Tools.antt =====
-- Backend/application/operations/agent_tools.py: the tools of the agent, their requests and decisions.
-- `Branches` has the gate that every proposed tool runs through, `Proposal` and
-- `Figures` what `decide_tool` makes of a model's answer before the gate. The routing explanation and the advisory repayment score,
-- which decide nothing, are left out of a decision.
-- A tool's request is a record of the keyword arguments of `gate_tool`; the sandbox is the one that
-- is passed in, or that of the policy table.
pub mod Branches
pub mod Figures
pub mod Gate
pub mod Commit
pub mod Proposal
pub mod Readable
pub mod Choice
pub mod Offers
pub mod Growth
use recova.Prelude.{
  ℕ, Bool, true, false, ◌&&◌, ◌||◌, Option, none, some, List, [], ◌∷◌, ltb, or_else, is_some,
  if◌then◌else◌,
}
use recova.Prelude.Int.{Number}
use recova.Prelude.Text.{Text}
use recova.Prelude.Outcome.{
  Run, pure, raise, attribute_error, value_error, Result, ok, err, ◌>>=◌, ◌>>◌,
}
use recova.Constants.{
  LifecycleState, NodeName, ActionType, Outcome, Channel, Action, StoppingRule, Playbook, AgentTool,
  action_value, channel_value, contains,
}
use recova.Dates.{Date, Moment, next_quiet_hours_end, next_salary_window}
use recova.Compliance.{is_within_quiet_hours, retry_cap_exceeded, voice_attempts_exhausted}
use recova.Policy.{
  PolicyReason, ActionName, ChannelName, ProposedAction, Sandbox, Decision, validate,
}
use recova.Playbooks.{playbook_action}
use recova.Database.{
  Txn, Db, Sentence, Entry, set_current_state, record_audit, enqueue_escalation, same_channel,
}

-- `_TOOL_RESOLUTION`
unfoldable pub tool_resolution : AgentTool → Option Action × Option Channel × Option LifecycleState
tool_resolution AgentTool.send_whatsapp = (some Action.send_whatsapp, some Channel.whatsapp, none)
tool_resolution AgentTool.voice_call = (some Action.voice_call, some Channel.voice, none)
tool_resolution AgentTool.generate_payment_link =
    (some Action.generate_payment_link, some Channel.payment_link, none)
tool_resolution AgentTool.generate_qr_code =
    (some Action.generate_qr_code, some Channel.payment_link, none)
tool_resolution AgentTool.offer_partial_plan =
    (some Action.offer_partial_plan, some Channel.payment_link, none)
tool_resolution AgentTool.offer_fee_waiver =
    (some Action.offer_fee_waiver, some Channel.whatsapp, none)
tool_resolution AgentTool.schedule_retry =
    (some Action.retry_charge, none, some LifecycleState.waiting)
tool_resolution AgentTool.handoff_to_human = (none, none, some LifecycleState.escalated)
tool_resolution AgentTool.stop = (none, none, some LifecycleState.cancelled)

-- The keyword arguments of `gate_tool`, with the two clocks that it reads.
pub record ToolRequest : Type 0 where
  pub model_reason : Text
  pub message : Option Text
  pub discount_pct : Option Number
  pub request_amount_minor : Option ℕ
  pub deadline_days : Option ℕ
  pub voice_attempts : ℕ
  pub clock : Moment
  pub today : Date

-- `AgentDecision`
pub record AgentDecision : Type 0 where
  pub tool : AgentTool
  pub action : Option Action
  pub channel : Option Channel
  pub terminal_state : Option LifecycleState
  pub allowed : Bool
  pub reason : Sentence
  pub stopping_rule : Option StoppingRule
  pub model_reason : Text
  pub sandbox_reason : Option Sentence
  pub message : Option Text
  pub discount_pct : Option Number
  pub requested_tool : AgentTool
  pub scheduled_for : Option Date
  pub request_amount_minor : Option ℕ
  pub deadline_days : Option ℕ

-- `_set_state`
unfoldable pub set_state :
    Txn → LifecycleState → ActionType → List Entry → Outcome → Run Db (Unit {0})
set_state txn state action_type payload outcome = do
  set_current_state txn.transaction_id state
  record_audit (record {
    transaction_id = txn.transaction_id;
    node_name = NodeName.execute_intervention;
    action_type = action_type;
    payload = payload;
    outcome = outcome;
  })

-- `model_reason or "..."`
abbrev pub reason_or : Text → Sentence → Sentence
reason_or [] default = default
reason_or (c ∷ t) default = Sentence.model_text (c ∷ t)
