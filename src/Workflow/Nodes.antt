-- ===== src/Workflow/Nodes.antt =====
-- workflow_nodes.py: `_finalize` and the nodes ingest, diagnose and wait. LangGraph merges what a
-- node returns into the state.
use recova.Prelude.{ℕ, Option, none, some, List, [], ◌∷◌, ◌++◌, or_else}
use recova.Prelude.Text.{Text}
use recova.Prelude.Outcome.{Run, pure, raise, key_error, attribute_error, ◌>>=◌, ◌>>◌}
use recova.Constants.{
  FailureClass, LifecycleState, NodeName, ActionType, Outcome, StoppingRule, Playbook,
}
use recova.Dates.{Date, next_salary_window}
use recova.Compliance.{Disposition}
use recova.Reply.Understanding.{Intent, ReplyReading, keyword_reading, intent_of}
use recova.Database.{
  Txn, Db, Sentence, Event, Entry, AuditRow, one_txn, set_current_state, record_audit,
  enqueue_escalation,
}
use recova.Workflow.State.{Diagnosis, PlaybookName, RecoveryState, Deps}

-- `_finalize`
unfoldable pub finalize : ℕ → LifecycleState → NodeName → List Entry → Outcome → Run Db (Unit {0})
finalize key state node payload outcome = do
  txn ← one_txn key
  set_current_state key state
  record_audit (record {
    transaction_id = key;
    node_name = node;
    action_type = ActionType.state_transition;
    payload = payload;
    outcome = outcome;
  })

abbrev pub transition : ℕ → NodeName → List Entry → AuditRow
transition key node payload = record {
  transaction_id = key;
  node_name = node;
  action_type = ActionType.state_transition;
  payload = payload;
  outcome = Outcome.success;
}

-- `verdict.rule.value`
abbrev pub rule_value : Option StoppingRule → Run Db StoppingRule
rule_value none = raise attribute_error
rule_value (some r) = pure r

abbrev pub stopped : LifecycleState → StoppingRule → RecoveryState → RecoveryState
stopped d r s = record s { disposition = some d; stopping_rule = some r }

-- what `ingest` returns on a message that does not halt the case, merged into the state
abbrev pub ingested : Txn → Option ReplyReading → RecoveryState → RecoveryState
ingested txn none s = record s {
  failure_class = some txn.failure_class;
  retry_count = some txn.retry_count;
  lifecycle = some LifecycleState.diagnosing;
  reply_intent = none;
  reply_p2p_date = none;
}
ingested txn (some reading) s = record s {
  failure_class = some txn.failure_class;
  retry_count = some txn.retry_count;
  lifecycle = some LifecycleState.diagnosing;
  reply_intent = intent_of reading;
  reply_p2p_date = reading.p2p_date;
}

-- the branches of `ingest` on the verdict
unfoldable pub act_on_verdict :
    Txn → ReplyReading → Disposition → RecoveryState → Run Db RecoveryState
act_on_verdict txn reading Disposition.terminate s = do
  r ← rule_value reading.verdict.rule
  finalize s.transaction_id LifecycleState.cancelled NodeName.ingest
      (Entry.stopping_rule r ∷ Entry.reason (Sentence.reply reading.verdict.reason) ∷ [])
      Outcome.success
  pure (stopped LifecycleState.cancelled r s)
act_on_verdict txn reading Disposition.escalate s = do
  enqueue_escalation (record {
    transaction_id = s.transaction_id;
    reason = Sentence.reply reading.verdict.reason;
    rule = reading.verdict.rule;
  })
  r ← rule_value reading.verdict.rule
  finalize s.transaction_id LifecycleState.escalated NodeName.ingest
      (Entry.stopping_rule r ∷ Entry.reason (Sentence.reply reading.verdict.reason) ∷ [])
      Outcome.escalated
  pure (stopped LifecycleState.escalated r s)
act_on_verdict txn reading Disposition.continue s = pure (ingested txn (some reading) s)

-- `deps.read_reply or keyword_reading`
abbrev pub reader : Option (Text → Date → ReplyReading) → Text → Date → ReplyReading
reader none = keyword_reading
reader (some f) = f

-- `if message:`; an empty message is skipped like an absent one
unfoldable pub screen_message : Deps → Txn → Option Text → RecoveryState → Run Db RecoveryState
screen_message deps txn none s = pure (ingested txn none s)
screen_message deps txn (some []) s = pure (ingested txn none s)
screen_message deps txn (some (c ∷ message)) s =
    let reading = reader deps.read_reply (c ∷ message) (or_else s.now_ist deps.clock).date in
    act_on_verdict txn reading reading.verdict.disposition s

unfoldable pub ingest : Deps → RecoveryState → Run Db RecoveryState
ingest deps s = do
  txn ← one_txn s.transaction_id
  set_current_state s.transaction_id LifecycleState.diagnosing
  record_audit
      (transition s.transaction_id NodeName.ingest (Entry.event Event.orchestration_started ∷ []))
  screen_message deps txn s.user_message s

-- the pinned playbook, if `Playbook(override)` accepts it
abbrev pub overridden : Option PlaybookName → Playbook → Playbook
overridden (some (PlaybookName.known p)) recommended = p
overridden (some (PlaybookName.unknown _)) recommended = recommended
overridden none recommended = recommended

abbrev pub class_of_state : Option FailureClass → Run Db FailureClass
class_of_state none = raise key_error
class_of_state (some fc) = pure fc

-- `telemetry.setdefault("amount_minor", txn.amount_minor)`
abbrev pub with_amount : Txn → RecoveryState → RecoveryState
with_amount txn s = record s {
  telemetry_amount_minor = some (or_else s.telemetry_amount_minor txn.amount_minor);
}

abbrev pub diagnosed : Playbook → Diagnosis → RecoveryState → RecoveryState
diagnosed chosen d s = record s {
  playbook = some (PlaybookName.known chosen);
  root_cause = some d.root_cause;
  proposed_discount_pct = d.proposed_discount_pct;
}

-- `a or b`, on what the engine found and what the reply said
abbrev pub first_some {ℓ} : {A : Type ℓ} → Option A → Option A → Option A
first_some (some a) b = some a
first_some none b = b

abbrev pub intent_entry : Option Intent → List Entry
intent_entry none = []
intent_entry (some i) = Entry.user_intent i ∷ []

abbrev pub promise_entry : Option Date → List Entry
promise_entry none = []
promise_entry (some d) = Entry.promised_on d ∷ []

unfoldable pub diagnose : Deps → RecoveryState → Run Db RecoveryState
diagnose deps s = do
  txn ← one_txn s.transaction_id
  fc ← class_of_state s.failure_class
  let d = deps.diagnosis fc (with_amount txn s)
  let chosen = overridden s.playbook d.recommended_playbook
  record_audit (
      transition s.transaction_id NodeName.diagnose (
        Entry.root_cause d.root_cause
          ∷ Entry.playbook chosen
          ∷ Entry.confidence d.confidence
          ∷ intent_entry (first_some d.user_intent_detected s.reply_intent)
        ++ promise_entry (first_some d.extracted_p2p_date s.reply_p2p_date)))
  pure (diagnosed chosen d s)

unfoldable pub wait : Deps → RecoveryState → Run Db RecoveryState
wait deps s = do
  txn ← one_txn s.transaction_id
  set_current_state s.transaction_id LifecycleState.waiting
  record_audit (record {
    transaction_id = s.transaction_id;
    node_name = NodeName.wait;
    action_type = ActionType.retry_scheduled;
    payload =
        Entry.reason Sentence.salary_cycle_deferral
        ∷ Entry.scheduled_on (next_salary_window deps.today)
        ∷ [];
    outcome = Outcome.success;
  })
  pure (record s { lifecycle = some LifecycleState.waiting })
