-- ===== src/Tools/Commit.antt =====
-- What `gate_tool` commits: the state of the case, the ticket, and nothing to any channel.
use recova.Prelude.{
  ◌≡◌, refl, Bool, true, false, Option, none, some, List, [], ◌∷◌, ◌++◌, if◌then◌else◌,
}
use recova.Constants.{LifecycleState, AgentTool, Action, Channel, StoppingRule}
use recova.Policy.{Sandbox, PolicyReason}
use recova.Database.{
  Txn, Db, Sentence, Ticket, find_txn, modify_txn, with_state, set_current_state, record_audit,
  enqueue_escalation,
}
use recova.Database.Rows.{find-with_state}
use recova.Tools.{ToolRequest, AgentDecision, tool_resolution, set_state}
use recova.Tools.Branches.{
  hand_off, stop_case, defer_tool, cap_tool, block_tool, allow_tool, gate_contact, gate_tool,
  is_schedule_retry,
}
use recova.Tools.Gate.{Concludes}

-- The row of the case after a decision: its state is the decision's, if it names one.
abbrev pub committed_row : Option LifecycleState → Txn → Txn
committed_row none row = row
committed_row (some st) row = with_state st row

abbrev pub is_handoff : AgentTool → Bool
is_handoff AgentTool.handoff_to_human = true
is_handoff _ = false

-- The tickets after a decision: one more if the tool is the handoff.
abbrev pub queued : AgentDecision → Txn → List Ticket → List Ticket
queued d txn before =
    if is_handoff d.tool
    then before
      ++ record { transaction_id = txn.transaction_id; reason = d.reason; rule = none } ∷ []
    else before

-- The database that a decision leaves.
pub record IsCommitted (txn row : Txn) (before : Db) (d : AgentDecision) (after : Db) : Type 0 where
  pub row_of_case :
      find_txn txn.transaction_id after.transactions ≡ some (committed_row d.terminal_state row)
  pub tickets : after.escalations ≡ queued d txn before.escalations
  pub outbox : after.outbox ≡ before.outbox

module _ (txn row : Txn) (q : ToolRequest) (db : Db)
    (found : find_txn txn.transaction_id db.transactions ≡ some row) where
  state_set :
      (st : LifecycleState)
      → find_txn txn.transaction_id (modify_txn txn.transaction_id (with_state st) db.transactions)
        ≡ some (with_state st row)
  state_set st = find-with_state txn.transaction_id st db.transactions found

  hand_off-IsCommitted : Concludes (IsCommitted txn row db) (hand_off txn q db)
  unfolding hand_off set_state set_current_state record_audit enqueue_escalation
  hand_off-IsCommitted = record {
    row_of_case = state_set LifecycleState.escalated;
    tickets = refl;
    outbox = refl;
  }

  stop_case-IsCommitted : Concludes (IsCommitted txn row db) (stop_case txn q db)
  unfolding stop_case set_state set_current_state record_audit
  stop_case-IsCommitted = record {
    row_of_case = state_set LifecycleState.cancelled;
    tickets = refl;
    outbox = refl;
  }

  module _ (tool : AgentTool) (a : Action) (c : Option Channel)
      (contact : is_handoff tool ≡ false) where
    defer_tool-IsCommitted :
        Concludes (IsCommitted txn row db) (defer_tool txn tool (some a) c q db)
    unfolding defer_tool set_state set_current_state record_audit
    defer_tool-IsCommitted = record {
      row_of_case = state_set LifecycleState.waiting;
      tickets = rw contact refl;
      outbox = refl;
    }

    cap_tool-IsCommitted :
        (rule : StoppingRule) (why : Sentence)
        → Concludes (IsCommitted txn row db) (cap_tool txn tool (some a) c rule why q db)
    unfolding cap_tool set_state set_current_state record_audit
    cap_tool-IsCommitted rule why = record {
      row_of_case = state_set LifecycleState.cancelled;
      tickets = rw contact refl;
      outbox = refl;
    }

    block_tool-IsCommitted :
        (why : PolicyReason) → Concludes (IsCommitted txn row db) (block_tool txn tool why q db)
    unfolding block_tool set_state set_current_state record_audit enqueue_escalation
    block_tool-IsCommitted why = record {
      row_of_case = state_set LifecycleState.escalated;
      tickets = refl;
      outbox = refl;
    }

    allow_tool-IsCommitted :
        is_schedule_retry tool ≡ false
        → (why : PolicyReason)
        → Concludes (IsCommitted txn row db) (allow_tool txn tool (some a) c none why q db)
    unfolding allow_tool
    allow_tool-IsCommitted immediate why =
        rw immediate (record { row_of_case = found; tickets = rw contact refl; outbox = refl })

    -- The guards, on whatever they found.
    gate_contact-IsCommitted :
        (sandbox : Sandbox) (st : Option LifecycleState)
        → ((why : PolicyReason)
            → Concludes (IsCommitted txn row db) (allow_tool txn tool (some a) c st why q db))
        → Concludes (IsCommitted txn row db) (gate_contact sandbox txn tool (some a) c st q db)
    unfolding gate_contact
    gate_contact-IsCommitted sandbox st allow = by_guard _ _ _ _ _ _ _
      where
        by_guard :
            (quiet capped spent approved : Bool) (why : PolicyReason) (s1 s2 : Sentence)
            → Concludes (IsCommitted txn row db) (
                (if quiet
                    then defer_tool txn tool (some a) c q
                    else if capped
                    then cap_tool txn tool (some a) c StoppingRule.rbi_max_retries s1 q
                    else if spent
                    then cap_tool txn tool (some a) c StoppingRule.voice_attempt_cap s2 q
                    else if approved
                    then allow_tool txn tool (some a) c st why q
                    else block_tool txn tool why q)
                  db)
        by_guard true _ _ _ why s1 s2 = defer_tool-IsCommitted
        by_guard false true _ _ why s1 s2 = cap_tool-IsCommitted StoppingRule.rbi_max_retries s1
        by_guard false false true _ why s1 s2 =
            cap_tool-IsCommitted StoppingRule.voice_attempt_cap s2
        by_guard false false false true why s1 s2 = allow why
        by_guard false false false false why s1 s2 = block_tool-IsCommitted why

  schedule_retry-IsCommitted :
      (why : PolicyReason)
      → Concludes (IsCommitted txn row db) (
          allow_tool txn AgentTool.schedule_retry
            (some Action.retry_charge)
            none
            (some LifecycleState.waiting)
            why
            q
            db)
  unfolding allow_tool set_state set_current_state record_audit
  schedule_retry-IsCommitted why = record {
    row_of_case = state_set LifecycleState.waiting;
    tickets = refl;
    outbox = refl;
  }

  immediate-IsCommitted :
      (sandbox : Sandbox) (tool : AgentTool) (a : Action) (c : Option Channel)
      → is_handoff tool ≡ false
      → is_schedule_retry tool ≡ false
      → Concludes (IsCommitted txn row db) (gate_contact sandbox txn tool (some a) c none q db)
  immediate-IsCommitted sandbox tool a c contact immediate =
      gate_contact-IsCommitted tool a c contact sandbox none
        (allow_tool-IsCommitted tool a c contact immediate)

-- On a case that exists, gate_tool returns for every tool; it leaves the case in the state that
-- its decision names, or the old one if it names none, queues one ticket exactly if the decision's
-- tool is the handoff, and calls no channel.
pub gate_tool-IsCommitted :
    (sandbox : Sandbox) (txn row : Txn) (tool : AgentTool) (q : ToolRequest) (db : Db)
    → find_txn txn.transaction_id db.transactions ≡ some row
    → Concludes (IsCommitted txn row db) (gate_tool sandbox txn tool q db)
unfolding gate_tool tool_resolution
gate_tool-IsCommitted sandbox txn row AgentTool.handoff_to_human q db found =
    hand_off-IsCommitted txn row q db found
gate_tool-IsCommitted sandbox txn row AgentTool.stop q db found =
    stop_case-IsCommitted txn row q db found
gate_tool-IsCommitted sandbox txn row AgentTool.schedule_retry q db found =
    gate_contact-IsCommitted txn row q db found AgentTool.schedule_retry Action.retry_charge none
      refl sandbox (some LifecycleState.waiting) (schedule_retry-IsCommitted txn row q db found)
gate_tool-IsCommitted sandbox txn row AgentTool.send_whatsapp q db found =
    immediate-IsCommitted txn row q db found sandbox _ _ _ refl refl
gate_tool-IsCommitted sandbox txn row AgentTool.voice_call q db found =
    immediate-IsCommitted txn row q db found sandbox _ _ _ refl refl
gate_tool-IsCommitted sandbox txn row AgentTool.generate_payment_link q db found =
    immediate-IsCommitted txn row q db found sandbox _ _ _ refl refl
gate_tool-IsCommitted sandbox txn row AgentTool.generate_qr_code q db found =
    immediate-IsCommitted txn row q db found sandbox _ _ _ refl refl
gate_tool-IsCommitted sandbox txn row AgentTool.offer_partial_plan q db found =
    immediate-IsCommitted txn row q db found sandbox _ _ _ refl refl
gate_tool-IsCommitted sandbox txn row AgentTool.offer_fee_waiver q db found =
    immediate-IsCommitted txn row q db found sandbox _ _ _ refl refl
