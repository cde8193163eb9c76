-- ===== src/Constants.antt =====
-- The enumerations of Backend/application/constants.py, with the value of each member that the
-- code compares or writes as text.
use recova.Prelude.{String, Bool, List, any}
use text.Mathlib.Text.{◌==◌}

pub data FailureClass : Type 0 where
  realtime_degradation checkout_abandonment subscription_mandate b2b_receivables : FailureClass

pub data LifecycleState : Type 0 where
  pending diagnosing waiting intervening recovered escalated cancelled failed : LifecycleState

pub data NodeName : Type 0 where
  ingest diagnose wait execute_intervention reconcile operator : NodeName

pub data ActionType : Type 0 where
  state_transition intervention_dispatch retry_scheduled escalation : ActionType

pub data Outcome : Type 0 where
  success failure escalated : Outcome

pub data Channel : Type 0 where
  whatsapp voice payment_link : Channel

pub data Action : Type 0 where
  send_whatsapp voice_call offer_fee_waiver generate_payment_link : Action
  generate_qr_code offer_partial_plan retry_charge cancel_subscription : Action

pub data StoppingRule : Type 0 where
  no_double_charge cross_device_completion rbi_max_retries explicit_cancel opt_out : StoppingRule
  dispute_freeze trai_quiet_hours voice_attempt_cap human_review : StoppingRule

pub data ArtifactKind : Type 0 where
  link upi_link qr : ArtifactKind

pub data ArtifactStatus : Type 0 where
  created paid partially_paid expired closed : ArtifactStatus

pub data Playbook : Type 0 where
  reroute_rail preauth_link upi_autopay_nudge negotiation : Playbook
  salary_cycle_sequencer mandate_refresh p2p_tracker : Playbook

-- `AgentTool` (operations/agent_tools.py)
pub data AgentTool : Type 0 where
  send_whatsapp voice_call generate_payment_link generate_qr_code offer_partial_plan : AgentTool
  offer_fee_waiver schedule_retry handoff_to_human stop : AgentTool

-- `InterventionAction.value`
abbrev pub action_value : Action → String
action_value Action.send_whatsapp = "SEND_WHATSAPP"
action_value Action.voice_call = "VOICE_CALL"
action_value Action.offer_fee_waiver = "OFFER_FEE_WAIVER"
action_value Action.generate_payment_link = "GENERATE_PAYMENT_LINK"
action_value Action.generate_qr_code = "GENERATE_QR_CODE"
action_value Action.offer_partial_plan = "OFFER_PARTIAL_PLAN"
action_value Action.retry_charge = "RETRY_CHARGE"
action_value Action.cancel_subscription = "CANCEL_SUBSCRIPTION"

-- `InterventionChannel.value`
abbrev pub channel_value : Channel → String
channel_value Channel.whatsapp = "WHATSAPP"
channel_value Channel.voice = "VOICE"
channel_value Channel.payment_link = "PAYMENT_LINK"

-- `x == y`, on texts that are only compared
abbrev pub same_string : String → String → Bool
same_string x y = x == y

-- `StoppingRule.value`
abbrev pub rule_value : StoppingRule → String
rule_value StoppingRule.no_double_charge = "NO_DOUBLE_CHARGE"
rule_value StoppingRule.cross_device_completion = "CROSS_DEVICE_COMPLETION"
rule_value StoppingRule.rbi_max_retries = "RBI_MAX_RETRIES"
rule_value StoppingRule.explicit_cancel = "EXPLICIT_CANCEL"
rule_value StoppingRule.opt_out = "OPT_OUT"
rule_value StoppingRule.dispute_freeze = "DISPUTE_FREEZE"
rule_value StoppingRule.trai_quiet_hours = "TRAI_QUIET_HOURS"
rule_value StoppingRule.voice_attempt_cap = "VOICE_ATTEMPT_CAP"
rule_value StoppingRule.human_review = "HUMAN_REVIEW"

-- `x == y`, on rules
abbrev pub same_rule : StoppingRule → StoppingRule → Bool
same_rule r s = same_string (rule_value r) (rule_value s)

-- `x in [value, ...]`
abbrev pub contains : String → List String → Bool
contains x = any (same_string x)
