-- ===== src/Workflow/State.antt =====
-- workflow_state.py, `Diagnosis` of operations/diagnosis_service.py, and `OrchestratorDeps` of
-- recovery_graph.py. The diagnosis engine and the reply reader are injected, as in the source.
use recova.Prelude.{ℕ, Option}
use recova.Prelude.Int.{Number}
use recova.Prelude.Text.{Text}
use recova.Constants.{FailureClass, LifecycleState, StoppingRule, Playbook}
use recova.Dates.{Date, Moment}
use recova.Policy.{Sandbox}
use recova.Reply.Understanding.{ReplyReading, Intent}

-- `Diagnosis` (operations/diagnosis_service.py)
pub record Diagnosis : Type 0 where
  pub root_cause : Text
  pub recommended_playbook : Playbook
  pub user_intent_detected : Option Intent
  pub extracted_p2p_date : Option Date
  pub confidence : ℕ
  pub proposed_discount_pct : Option Number

-- A playbook as the state carries it: `Playbook(value)` rejects other texts.
pub data PlaybookName : Type 0 where
  known : Playbook → PlaybookName
  unknown : Text → PlaybookName

-- `RecoveryState`; an absent key is `none`
pub record RecoveryState : Type 0 where
  pub transaction_id : ℕ
  pub failure_class : Option FailureClass
  pub telemetry_amount_minor : Option ℕ
  pub event_type : Text
  pub error_code : Option Text
  pub user_message : Option Text
  pub reply_intent : Option Intent
  pub reply_p2p_date : Option Date
  pub lifecycle : Option LifecycleState
  pub playbook : Option PlaybookName
  pub root_cause : Option Text
  pub retry_count : Option ℕ
  pub proposed_discount_pct : Option Number
  pub voice_attempts : Option ℕ
  pub now_ist : Option Moment
  pub outcome_event : Option Text
  pub disposition : Option LifecycleState
  pub stopping_rule : Option StoppingRule

-- `OrchestratorDeps`, with the date of `date.today()`
pub record Deps : Type 0 where
  pub diagnosis : FailureClass → RecoveryState → Diagnosis
  pub sandbox : Sandbox
  pub clock : Moment
  pub today : Date
  pub read_reply : Option (Text → Date → ReplyReading)
