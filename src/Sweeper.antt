-- ===== src/Sweeper.antt =====
-- Backend/application/operations/deadline_sweeper.py: one tick of the sweeper that follows up the
-- overdue partial plans. What the providers answer to the polls, the sandbox of the policy table and
-- the date are arguments; the message on the theatre's screen and its wording are left out.
pub mod Contact
use recova.Prelude.{
  ℕ, Bool, true, false, ◌&&◌, ◌||◌, not, Option, none, some, List, [], ◌∷◌, ◌++◌, ◌==◌, ◌/◌,
  is_some, keep, or_else, if◌then◌else◌,
}
use recova.Prelude.Text.{codes}
use recova.Prelude.Outcome.{Run, Result, ok, err}
use recova.Constants.{LifecycleState, NodeName, ActionType, Outcome, ArtifactStatus, AgentTool}
use recova.Dates.{Date, Moment, moment_leb}
use recova.Policy.{Sandbox}
use recova.Database.{Txn, Db, AuditRow, Event, Entry, find_txn}
use recova.Tools.{ToolRequest, AgentDecision}
use recova.Tools.Branches.{gate_tool}
use recova.Thread.{Direction, Sender, Body, add_message}
use recova.Artifacts.{Artifact, Store}
use recova.Artifacts.Payment.{Poll, reconcile, put_artifact}

-- `_TERMINAL_STATES`
abbrev pub is_terminal : LifecycleState → Bool
is_terminal LifecycleState.recovered = true
is_terminal LifecycleState.escalated = true
is_terminal LifecycleState.cancelled = true
is_terminal LifecycleState.failed = true
is_terminal _ = false

-- `_OPEN_ARTIFACT_STATUSES`
abbrev pub is_open_status : ArtifactStatus → Bool
is_open_status ArtifactStatus.created = true
is_open_status ArtifactStatus.partially_paid = true
is_open_status _ = false

abbrev pub is_past : Option Moment → Moment → Bool
is_past none now = false
is_past (some d) now = moment_leb d now

-- the join with the cases and its filter
abbrev pub is_live_case : Option Txn → Bool
is_live_case none = false
is_live_case (some t) = not (is_terminal t.current_state)

-- the filters of `_tick`
unfoldable pub is_due : List Txn → Moment → Artifact → Bool
is_due cases now a =
    a.accept_partial
    && is_past a.deadline now
    && not (is_some a.followed_up_at)
    && is_open_status a.status
    && is_live_case (find_txn a.transaction_id cases)

-- the call of `gate_tool`
abbrev pub follow_up_request : Moment → Date → ToolRequest
follow_up_request now day = record {
  model_reason = codes "Automated follow-up: partial-payment deadline passed.";
  message = none;
  discount_pct = none;
  request_amount_minor = none;
  deadline_days = none;
  voice_attempts = 0;
  clock = now;
  today = day;
}

abbrev pub follow_up_audit : Artifact → ℕ → AuditRow
follow_up_audit a balance = record {
  transaction_id = a.transaction_id;
  node_name = NodeName.execute_intervention;
  action_type = ActionType.intervention_dispatch;
  payload =
      Entry.event Event.deadline_followup
      ∷ Entry.agent_tool AgentTool.send_whatsapp
      ∷ Entry.artifact_id a.id
      ∷ Entry.balance_minor balance
      ∷ [];
  outcome = Outcome.success;
}

-- the end of `_process_artifact`: the message, the stamp, the audit
unfoldable pub follow_up : Artifact → ℕ → Moment → Store → Store
follow_up a balance now store = record store {
  messages =
      add_message a.transaction_id Direction.outbound Sender.system
        (Body.balance_overdue (balance / 100)) (some (a.id, a.status)) store.messages;
  artifacts = put_artifact (record a { followed_up_at = some now }) store.artifacts;
  db = record (store.db) { audits = store.db.audits ++ follow_up_audit a balance ∷ [] };
}

abbrev pub after_gate :
    Artifact → ℕ → Moment → Store → Result AgentDecision × Db → Result (Unit {0}) × Store
after_gate a balance now store (ok d, db) =
    let gated = record store { db = db } in
    if d.allowed then (ok tt, follow_up a balance now gated) else (ok tt, gated)
after_gate a balance now store (err e, db) = (err e, record store { db = db })

-- `_process_artifact` after the reconciliation, on the refreshed case
unfoldable pub chase : Sandbox → Date → Moment → Artifact → Txn → Store → Result (Unit {0}) × Store
chase sandbox day now a txn store =
    let balance = or_else txn.metadata.balance_due_minor 0 in
    if is_terminal txn.current_state || not (is_open_status a.status)
    then (ok tt, store)
    else if balance == 0
    then (ok tt, store)
    else after_gate a balance now store
        (gate_tool sandbox txn AgentTool.send_whatsapp (follow_up_request now day) store.db)

abbrev pub chase_found :
    Sandbox → Date → Moment → Artifact → Option Txn → Store → Result (Unit {0}) × Store
chase_found sandbox day now a none store = (ok tt, store)
chase_found sandbox day now a (some txn) store = chase sandbox day now a txn store

abbrev pub after_reconcile :
    Sandbox → Date → Moment → Result Artifact × Store → Result (Unit {0}) × Store
after_reconcile sandbox day now (ok a, store) =
    chase_found sandbox day now a (find_txn a.transaction_id store.db.transactions) store
after_reconcile sandbox day now (err e, store) = (err e, store)

-- `_process_artifact`
unfoldable pub process_artifact :
    Sandbox → Date → Moment → (Artifact → Poll) → Artifact → Run Store (Unit {0})
process_artifact sandbox day now poll a store =
    elim (find_txn a.transaction_id store.db.transactions) [
      | none ↦ (ok tt, store)
      | some _ ↦ after_reconcile sandbox day now (reconcile (poll a) a store)
    ]

abbrev pub and_rest : Run Store (Unit {0}) → Result (Unit {0}) × Store → Result (Unit {0}) × Store
and_rest rest (ok _, store) = rest store
and_rest rest (err e, store) = (err e, store)

-- the loop of `_tick` over the rows that were due at its start
unfoldable pub process_all :
    Sandbox → Date → Moment → (Artifact → Poll) → List Artifact → Run Store (Unit {0})
process_all sandbox day now poll [] store = (ok tt, store)
process_all sandbox day now poll (a ∷ rest) store =
    and_rest (process_all sandbox day now poll rest) (process_artifact sandbox day now poll a store)

-- `_tick`
unfoldable pub tick : Sandbox → Date → Moment → (Artifact → Poll) → Run Store (Unit {0})
tick sandbox day now poll store =
    process_all sandbox day now poll (keep (is_due store.db.transactions now) store.artifacts) store
