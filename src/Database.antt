-- ===== src/Database.antt =====
-- The rows that the recovery engine keeps (Backend/application/entities) and the services that
-- write them: audit_service.py, escalation_service.py, voice_attempts.py, message_attempts.py.
-- An identifier or a contact, which the code only compares and hands on, is a number. A request
-- works on the database alone, and each commit is immediate. Time stamps and generated ids are left
-- out.
pub mod Rows
pub mod Growth
use recova.Prelude.{
  ℕ, Bool, true, false, ◌&&◌, Option, none, some, List, [], ◌∷◌, ◌++◌, ◌==◌, count_of,
  if◌then◌else◌,
}
use recova.Prelude.Int.{ℤ}
use recova.Prelude.Text.{Text}
use recova.Prelude.Outcome.{Run, ok, err, pure, raise, no_result_found, ◌>>=◌, ◌>>◌}
use recova.Constants.{
  FailureClass, LifecycleState, NodeName, ActionType, Outcome, Channel, Action, StoppingRule,
  Playbook, AgentTool, ArtifactStatus,
}
use recova.Dates.{Date, Moment}
use recova.Compliance.{Reason}
use recova.Policy.{PolicyReason}
use recova.Reply.Understanding.{Intent}

-- The keys of `metadata_json` that the modelled code reads or writes.
pub record Metadata : Type 0 where
  pub payment_link_id : Option ℕ
  pub balance_due_minor : Option ℕ
  pub balance_deadline : Option Moment
  pub is_at_risk : Option Bool
  pub simulation_run_id : Option ℕ
  pub live_session_id : Option ℕ
  pub unworked : Option Bool
  pub calendar_reminder : Option Date
  pub next_debit_date : Option Date

-- `TransactionState`
pub record Txn : Type 0 where
  pub transaction_id : ℕ
  pub failure_class : FailureClass
  pub current_state : LifecycleState
  pub retry_count : ℕ
  pub max_retries : ℕ
  pub customer_contact : ℕ
  pub amount_minor : ℕ
  pub metadata : Metadata

-- The sentences that are written to audits and tickets, with the figures that they quote.
pub data Sentence : Type 0 where
  reply : Reason → Sentence
  policy : PolicyReason → Sentence
  quiet_hours : Moment → Sentence
  retry_cap : ℕ → ℕ → Sentence
  voice_cap : ℕ → Sentence
  salary_cycle_deferral human_review_requested agent_stopped retry_scheduled : Sentence
  model_text : Text → Sentence

pub data Event : Type 0 where
  orchestration_started awaiting_outcome webhook_ingested deadline_followup : Event
  flagged payment_reconciled : Event

-- A key of an audit payload with its value.
pub data Entry : Type 0 where
  event : Event → Entry
  stopping_rule : StoppingRule → Entry
  reason : Sentence → Entry
  policy_block : PolicyReason → Entry
  action : Action → Entry
  channel : Option Channel → Entry
  playbook : Playbook → Entry
  agent_tool requested_tool : AgentTool → Entry
  deferred_action : Action → Entry
  scheduled_at : Moment → Entry
  scheduled_on : Date → Entry
  outcome_event : Option Text → Entry
  disposition : LifecycleState → Entry
  root_cause : Text → Entry
  confidence balance_minor artifact_id : ℕ → Entry
  class_number : FailureClass → Entry
  event_type : Text → Entry
  error_code : Option Text → Entry
  user_intent : Intent → Entry
  promised_on calendar_reminder : Date → Entry
  live_session_id amount_paid_minor : ℕ → Entry
  artifact_status : ArtifactStatus → Entry
  seeded judgment : Entry

-- `AuditTrail`
pub record AuditRow : Type 0 where
  pub transaction_id : ℕ
  pub node_name : NodeName
  pub action_type : ActionType
  pub payload : List Entry
  pub outcome : Outcome

-- `EscalationQueue`
pub record Ticket : Type 0 where
  pub transaction_id : ℕ
  pub reason : Sentence
  pub rule : Option StoppingRule

-- A call of a channel adapter.
pub data AdapterCall : Type 0 where
  whatsapp_send voice_call : ℕ → AdapterCall
  create_payment_link : ℕ → ℕ → FailureClass → AdapterCall
  retry_charge cancel_subscription : ℕ → AdapterCall

-- The database, with the adapter calls made so far.
pub record Db : Type 0 where
  pub transactions : List Txn
  pub audits : List AuditRow
  pub escalations : List Ticket
  pub outbox : List AdapterCall

-- `filter_by(transaction_id=...).one_or_none()`; the column is unique
unfoldable pub find_txn : ℕ → List Txn → Option Txn
find_txn key [] = none
find_txn key (t ∷ ts) = if t.transaction_id == key then some t else find_txn key ts

-- The table with `f` applied to the row of the key.
unfoldable pub modify_txn : ℕ → (Txn → Txn) → List Txn → List Txn
modify_txn key f [] = []
modify_txn key f (t ∷ ts) = (if t.transaction_id == key then f t else t) ∷ modify_txn key f ts

-- `.one()`
unfoldable pub one_txn : ℕ → Run Db Txn
one_txn key db = elim (find_txn key db.transactions) [
  | none ↦ (err no_result_found, db)
  | some t ↦ (ok t, db)
]

abbrev pub with_state : LifecycleState → Txn → Txn
with_state state t = record t { current_state = state }

-- `txn.current_state = state; db.commit()`
unfoldable pub set_current_state : ℕ → LifecycleState → Run Db (Unit {0})
set_current_state key state db =
    (ok tt, record db { transactions = modify_txn key (with_state state) db.transactions })

-- `record_audit`
unfoldable pub record_audit : AuditRow → Run Db (Unit {0})
record_audit row db = (ok tt, record db { audits = db.audits ++ row ∷ [] })

-- `enqueue_escalation`
unfoldable pub enqueue_escalation : Ticket → Run Db (Unit {0})
enqueue_escalation ticket db = (ok tt, record db { escalations = db.escalations ++ ticket ∷ [] })

-- `payload.get("channel") == channel.value`
abbrev pub same_channel : Channel → Channel → Bool
same_channel Channel.whatsapp Channel.whatsapp = true
same_channel Channel.voice Channel.voice = true
same_channel Channel.payment_link Channel.payment_link = true
same_channel _ _ = false

abbrev pub names_channel : Channel → List Entry → Bool
names_channel c [] = false
names_channel c (channel (some d) ∷ rest) = same_channel c d
names_channel c (channel none ∷ rest) = false
names_channel c (_ ∷ rest) = names_channel c rest

abbrev pub is_dispatch : ActionType → Bool
is_dispatch ActionType.intervention_dispatch = true
is_dispatch _ = false

-- the rows that the two attempt counts count
abbrev pub dispatched_on : ℕ → Channel → AuditRow → Bool
dispatched_on key c row =
    row.transaction_id == key && is_dispatch row.action_type && names_channel c row.payload

abbrev pub seeded_or : Option ℕ → ℕ → ℕ
seeded_or none counted = counted
seeded_or (some n) counted = n

-- `voice_attempt_count`
unfoldable pub voice_attempt_count : List AuditRow → ℕ → Option ℕ → ℕ
voice_attempt_count audits key given =
    seeded_or given (count_of (dispatched_on key Channel.voice) audits)

-- `whatsapp_nudge_count`
unfoldable pub whatsapp_nudge_count : List AuditRow → ℕ → Option ℕ → ℕ
whatsapp_nudge_count audits key given =
    seeded_or given (count_of (dispatched_on key Channel.whatsapp) audits)
