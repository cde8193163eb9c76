-- ===== src/Live/Dialogue.antt =====
-- live_session.py: `_opening`, `start` and `_screened_stop`. The drafted texts and the model's answers
-- are arguments. The profile of a class is `class_profile` of batch_seed.py.
use recova.Prelude.{
  ℕ, Bool, true, false, ◌&&◌, ◌||◌, not, Option, none, some, List, [], ◌∷◌, leb, all, or_else,
  if◌then◌else◌,
}
use recova.Prelude.Text.{Text, codes}
use recova.Prelude.Outcome.{
  Run, Result, ok, err, pure, raise, key_error, attribute_error, ◌>>=◌, ◌>>◌,
}
use recova.Constants.{
  FailureClass, LifecycleState, NodeName, ActionType, Outcome, StoppingRule, Playbook, AgentTool,
}
use recova.Compliance.{Disposition, MessageVerdict, empty_reply}
use recova.Playbooks.{default_playbook}
use recova.Reply.Understanding.{ReplyReading, Judgments, Source, read_reply}
use recova.Database.{Sentence, AuditRow, Event, Entry, with_state, record_audit, enqueue_escalation}
use recova.Tools.Proposal.{tool_for_playbook, decide_tool}
use recova.Tools.Figures.{ToolPayload}
use recova.Thread.{Direction, Sender, Body}
use recova.Live.{Stage, Theatre, emit, on_db, current_txn, change_case, post, set_last_decision}
use recova.Live.Events.{LiveEvent, Phase}
use recova.Live.Decisions.{apply_agent_decision, finish}

-- The root cause and the confidence of `_CLASS_PROFILE`, in ten-thousandths.
unfoldable pub class_profile : FailureClass → Text × ℕ
class_profile FailureClass.realtime_degradation = (codes "ISSUER_LATENCY_SPIKE", 9300)
class_profile FailureClass.checkout_abandonment = (codes "OTP_SESSION_EXPIRED", 8700)
class_profile FailureClass.subscription_mandate = (codes "SALARY_CYCLE_MISMATCH", 9000)
class_profile FailureClass.b2b_receivables = (codes "BUYER_APPROVAL_DELAY", 8600)

abbrev pub session_audit : Theatre → NodeName → List Entry → Outcome → AuditRow
session_audit θ node payload outcome = record {
  transaction_id = θ.transaction_id;
  node_name = node;
  action_type = ActionType.state_transition;
  payload = payload;
  outcome = outcome;
}

-- the payload of `_DeterministicOpeningRouter`, with the live `_tool_for_playbook`
unfoldable pub opening_payload : Playbook → ToolPayload
opening_payload playbook = record {
  tool = some (or_else (tool_for_playbook playbook) AgentTool.handoff_to_human);
  reason = codes "The class playbook is the safe opening action.";
  message = none;
  discount_pct = none;
  partial_amount_inr = none;
  amount_inr = none;
  deadline_days = none;
}

-- the diagnosis of `_opening`, audited and shown
unfoldable pub open_case : Theatre → FailureClass → Run Stage (Unit {0})
open_case θ fc = do
  on_db (change_case θ (with_state LifecycleState.diagnosing))
  on_db (
      record_audit (
        session_audit θ NodeName.ingest
          (Entry.event Event.flagged
            ∷ Entry.class_number fc
            ∷ Entry.live_session_id θ.session_id
            ∷ [])
          Outcome.success))
  emit LiveEvent.start
  emit (LiveEvent.step Phase.flagged)
  on_db (
      record_audit (
        session_audit θ NodeName.diagnose
          (Entry.root_cause (class_profile fc).0
            ∷ Entry.playbook (default_playbook fc)
            ∷ Entry.confidence (class_profile fc).1
            ∷ Entry.live_session_id θ.session_id
            ∷ [])
          Outcome.success))
  emit (LiveEvent.diagnosis (default_playbook fc))
  emit (LiveEvent.typing true)

-- `_opening`, on the drafted first message
unfoldable pub opening : Theatre → Text → Run Stage (Unit {0})
opening θ draft = do
  txn ← current_txn θ
  open_case θ txn.failure_class
  d ← on_db (
      decide_tool θ.policy θ.policy θ.transaction_id
        (opening_payload (default_playbook txn.failure_class)) (some txn.failure_class) none none
        θ.clock θ.today)
  set_last_decision d
  emit (LiveEvent.decision d)
  _ ← apply_agent_decision θ d draft (some (default_playbook txn.failure_class))
  pure tt

-- `self.started = True`
unfoldable pub set_started : Run Stage (Unit {0})
set_started stage = (ok tt, record stage { session = record (stage.session) { started = true } })

unfoldable pub start : Theatre → Text → Run Stage (Unit {0})
start θ draft stage =
    if not stage.session.started && not stage.session.closed
    then (set_started >> opening θ draft) stage
    else (ok tt, stage)

-- What comes back from the outside during one reply: the candidates that the text offers, Jev's
-- answers, the drafted reply and the model's choice of a tool.
pub record Hearing : Type 0 where
  pub days : List ℕ
  pub amounts : List (ℕ × ℕ)
  pub judgments : Option Judgments
  pub draft : Text
  pub payload : ToolPayload
  pub opening_draft : Text

abbrev pub is_space : ℕ → Bool
is_space c = (leb 9 c && leb c 13) || (leb 28 c && leb c 32)

-- `read_reply` on a blank text
abbrev pub blank_reading : ReplyReading
blank_reading = record {
  verdict = record { disposition = Disposition.continue; rule = none; reason = empty_reply };
  source = Source.empty;
  p2p_date = none;
  commits_to_pay = false;
  already_paid = false;
  hardship = false;
  offer_amount_minor = none;
  note = none;
}

abbrev pub or_raise : Option ReplyReading → Result ReplyReading
or_raise none = err key_error
or_raise (some r) = ok r

-- `read_reply`, on any text
unfoldable pub reading_of : Theatre → Hearing → Text → Result ReplyReading
reading_of θ h text =
    if all is_space text
    then ok blank_reading
    else or_raise (read_reply text h.days h.amounts θ.clock.date h.judgments)

unfoldable pub hear : Theatre → Hearing → Text → Run Stage ReplyReading
hear θ h text stage = (reading_of θ h text, stage)

abbrev pub emit_judged : Source → Run Stage (Unit {0})
emit_judged Source.jev = do emit LiveEvent.route; emit LiveEvent.judgment
emit_judged _ = pure tt

-- the state, the outcome and the phase that `_screened_stop` chooses
abbrev pub stop_state : Disposition → LifecycleState
stop_state Disposition.escalate = LifecycleState.escalated
stop_state _ = LifecycleState.cancelled

abbrev pub stop_outcome : Disposition → Outcome
stop_outcome Disposition.escalate = Outcome.escalated
stop_outcome _ = Outcome.success

abbrev pub stop_phase : Disposition → Phase
stop_phase Disposition.escalate = Phase.escalated
stop_phase _ = Phase.stopped

abbrev pub enqueue_if_escalated : Theatre → MessageVerdict → Disposition → Run Stage (Unit {0})
enqueue_if_escalated θ v Disposition.escalate = on_db (
    enqueue_escalation (record {
      transaction_id = θ.transaction_id;
      reason = Sentence.reply v.reason;
      rule = v.rule;
    }))
enqueue_if_escalated θ v _ = pure tt

-- `verdict.rule.value`
abbrev pub rule_of : Option StoppingRule → Run Stage StoppingRule
rule_of none = raise attribute_error
rule_of (some r) = pure r

-- `_screened_stop`
unfoldable pub screened_stop : Theatre → MessageVerdict → Run Stage (Unit {0})
screened_stop θ v = do
  txn ← current_txn θ
  enqueue_if_escalated θ v v.disposition
  on_db (change_case θ (with_state (stop_state v.disposition)))
  rule ← rule_of v.rule
  on_db (
      record_audit (
        session_audit θ NodeName.ingest
          (Entry.stopping_rule rule
            ∷ Entry.reason (Sentence.reply v.reason)
            ∷ Entry.live_session_id θ.session_id
            ∷ Entry.judgment
            ∷ [])
          (stop_outcome v.disposition)))
  emit (LiveEvent.step (stop_phase v.disposition))
  post θ Direction.outbound Sender.system (Body.stop_notice v) none
  finish θ (stop_state v.disposition) (some rule)
