-- ===== src/Webhook.antt =====
-- Backend/application/endpoints/webhook_api.py and operations/idempotency_service.py: the intake of a
-- gateway event. The keyed digest is a parameter, as are the dependencies of the graph; a delivery
-- is its parsed fields, with 0 for an empty contact. The merchant and the currency are left out.
pub mod Once
use recova.Prelude.{
  ℕ, Bool, true, false, ◌&&◌, Option, none, some, List, [], ◌∷◌, ◌++◌, ◌==◌, any, or_else,
  if◌then◌else◌,
}
use recova.Prelude.Text.{Text}
use recova.Prelude.Outcome.{
  Run, Result, ok, err, http_unauthorized, http_bad_request, http_unprocessable, pure, ◌>>=◌, ◌>>◌,
}
use recova.Constants.{FailureClass, LifecycleState, NodeName, ActionType, Outcome}
use recova.Classifier.{classify}
use recova.Database.{Txn, Db, Event, Entry, AuditRow, find_txn, modify_txn, one_txn, record_audit}
use recova.Workflow.State.{RecoveryState, Deps}
use recova.Workflow.Graph.{invoke}

pub record Delivery : Type 0 where
  pub raw_body : Text
  pub signature : Option ℕ
  pub event_type : Text
  pub header_event_id : Option ℕ
  pub body_event_id : Option ℕ
  pub error_code : Option Text
  pub entity_id : ℕ
  pub noted_transaction_id : Option ℕ
  pub entity_contact : Option ℕ
  pub noted_contact : Option ℕ
  pub amount_minor : Option ℕ

-- The secret of the webhooks, if one is set, and the digest under it.
pub record Verifier : Type 0 where
  pub secret : Option Text
  pub digest : Text → Text → ℕ

-- The database with the event ids of `ProcessedEvent`.
pub record Intake : Type 0 where
  pub db : Db
  pub events : List ℕ

pub data Response : Type 0 where
  duplicate : ℕ → Response
  ingested : ℕ → FailureClass → LifecycleState → Response

-- `_signature_is_valid`; an empty secret is no secret
unfoldable pub signature_is_valid : Verifier → Text → Option ℕ → Bool
signature_is_valid v raw none = false
signature_is_valid v raw (some signature) = elim v.secret [
  | none ↦ false
  | some [] ↦ false
  | some (c ∷ secret) ↦ v.digest (c ∷ secret) raw == signature
]

-- `x_razorpay_event_id or body.get("id")`
unfoldable pub event_id_of : Delivery → Option ℕ
event_id_of q = elim q.header_event_id [ none ↦ q.body_event_id | some id ↦ some id ]

abbrev pub is_event : ℕ → ℕ → Bool
is_event id claimed = claimed == id

-- `claim_event`; the column is unique
unfoldable pub claim_event : ℕ → List ℕ → Bool × List ℕ
claim_event id events =
    if any (is_event id) events then (false, events) else (true, events ++ id ∷ [])

abbrev pub transaction_id_of : Delivery → ℕ
transaction_id_of q = or_else q.noted_transaction_id q.entity_id

-- the row that a first event adds
abbrev pub new_case : Delivery → FailureClass → Txn
new_case q fc = record {
  transaction_id = transaction_id_of q;
  failure_class = fc;
  current_state = LifecycleState.pending;
  retry_count = 0;
  max_retries = 3;
  customer_contact = or_else q.entity_contact (or_else q.noted_contact 0);
  amount_minor = or_else q.amount_minor 0;
  metadata = record {
    payment_link_id = none;
    balance_due_minor = none;
    balance_deadline = none;
    is_at_risk = none;
    simulation_run_id = none;
    live_session_id = none;
    unworked = none;
    calendar_reminder = none;
    next_debit_date = none;
  };
}

abbrev pub with_class : FailureClass → Txn → Txn
with_class fc t = record t { failure_class = fc }

-- the case's row, added or given its new class
unfoldable pub upsert_case : Delivery → FailureClass → Run Db (Unit {0})
upsert_case q fc db = elim (find_txn (transaction_id_of q) db.transactions) [
  | none ↦ (ok tt, record db { transactions = db.transactions ++ new_case q fc ∷ [] })
  | some _ ↦ (
    ok tt,
    record db { transactions = modify_txn (transaction_id_of q) (with_class fc) db.transactions },
  )
]

-- the state that the graph starts from
abbrev pub initial_state : Delivery → RecoveryState
initial_state q = record {
  transaction_id = transaction_id_of q;
  failure_class = none;
  telemetry_amount_minor = none;
  event_type = q.event_type;
  error_code = q.error_code;
  user_message = none;
  reply_intent = none;
  reply_p2p_date = none;
  lifecycle = none;
  playbook = none;
  root_cause = none;
  retry_count = none;
  proposed_discount_pct = none;
  voice_attempts = none;
  now_ist = none;
  outcome_event = none;
  disposition = none;
  stopping_rule = none;
}

-- the end of `ingest_razorpay_event`, on the class of the signal
unfoldable pub run_event : Deps → Delivery → FailureClass → Run Db Response
run_event deps q fc = do
  upsert_case q fc
  record_audit (record {
    transaction_id = transaction_id_of q;
    node_name = NodeName.ingest;
    action_type = ActionType.state_transition;
    payload =
        Entry.event Event.webhook_ingested
        ∷ Entry.event_type q.event_type
        ∷ Entry.error_code q.error_code
        ∷ Entry.class_number fc
        ∷ [];
    outcome = Outcome.success;
  })
  invoke deps (initial_state q)
  txn ← one_txn (transaction_id_of q)
  pure (ingested (transaction_id_of q) fc txn.current_state)

-- the part after the event id is claimed
unfoldable pub process_event : Deps → Delivery → Run Db Response
process_event deps q db = elim (classify q.event_type q.error_code) [
  | none ↦ (err http_unprocessable, db)
  | some fc ↦ run_event deps q fc db
]

-- the branches on the claim
unfoldable pub ingest_claimed : Deps → Delivery → ℕ → Run Intake Response
ingest_claimed deps q id s =
    let (first, events) = claim_event id s.events in
    let (r, db) = process_event deps q s.db in
    if first
    then (r, record { db = db; events = events })
    else (ok (duplicate id), record s { events = events })

-- `ingest_razorpay_event`
unfoldable pub ingest_razorpay_event : Verifier → Deps → Delivery → Run Intake Response
ingest_razorpay_event v deps q s =
    if signature_is_valid v q.raw_body q.signature
    then elim (event_id_of q) [
      | none ↦ (err http_bad_request, s)
      | some id ↦ ingest_claimed deps q id s
    ]
    else (err http_unauthorized, s)
