-- ===== src/Live/Cycle.antt =====
-- live_session.py: `create_session` with `_seed_prior_interventions`, and `run_agent_tool`. An
-- authored case arrives as the row that the scenario builds for it. The amounts that a client names
-- are taken as not negative, in paise.
use recova.Prelude.{
  ℕ, zero, suc, min, false, ◌&&◌, Option, none, some, [], ◌∷◌, ◌++◌, is_some, if◌then◌else◌,
}
use recova.Prelude.Text.{Text, codes}
use recova.Prelude.Outcome.{Run, ok, pure, raise, value_error, key_error, ◌>>=◌, ◌>>◌}
use recova.Constants.{NodeName, ActionType, Outcome, Channel, Action, AgentTool}
use recova.Database.{Txn, Db, AuditRow, Entry, find_txn, record_audit, voice_attempt_count}
use recova.Tools.{ToolRequest, AgentDecision}
use recova.Tools.Branches.{gate_tool, is_partial_plan}
use recova.Artifacts.{Artifact}
use recova.Thread.{Direction, Sender, Body}
use recova.Live.{
  Stage, Session, Theatre, CallStatus, emit, on_db, on_store, current_txn, change_case,
  write_message, set_last_decision,
}
use recova.Live.Events.{LiveEvent}
use recova.Live.Decisions.{apply_agent_decision}
use recova.Live.Answer.{report}

-- the audit row of an earlier attempt
abbrev pub seeded_audit : Theatre → Action → Channel → AuditRow
seeded_audit θ action channel = record {
  transaction_id = θ.transaction_id;
  node_name = NodeName.execute_intervention;
  action_type = ActionType.intervention_dispatch;
  payload = Entry.action action ∷ Entry.channel (some channel) ∷ Entry.seeded ∷ [];
  outcome = Outcome.success;
}

-- the first loop of `_seed_prior_interventions`, from nudge `i` on
unfoldable pub seed_nudges : Theatre → ℕ → ℕ → Run Stage (Unit {0})
seed_nudges θ i zero = pure tt
seed_nudges θ i (suc n) = do
  _ ← on_store (write_message θ Direction.outbound Sender.agent (Body.seeded_nudge (min i 4)) none)
  on_db (record_audit (seeded_audit θ Action.send_whatsapp Channel.whatsapp))
  seed_nudges θ (suc i) n

-- the simulated call of an earlier attempt
unfoldable pub add_seeded_call : Theatre → Run Stage (Unit {0})
add_seeded_call θ stage = (
  ok tt,
  record stage {
    calls =
        stage.calls
        ++ record {
          id = stage.next_call;
          transaction_id = θ.transaction_id;
          status = CallStatus.completed;
          duration_sec = 0;
        }
          ∷ [];
    next_call = suc stage.next_call;
  },
)

-- the second loop of `_seed_prior_interventions`
unfoldable pub seed_calls : Theatre → ℕ → Run Stage (Unit {0})
seed_calls θ zero = pure tt
seed_calls θ (suc n) = do
  add_seeded_call θ
  on_db (record_audit (seeded_audit θ Action.voice_call Channel.voice))
  seed_calls θ n

-- `_seed_prior_interventions`
unfoldable pub seed_prior_interventions : Theatre → ℕ → ℕ → Run Stage (Unit {0})
seed_prior_interventions θ whatsapp_nudges voice_attempts = do
  seed_nudges θ 0 (min whatsapp_nudges 5)
  seed_calls θ (min voice_attempts 5)

-- The three ways to ask for a session: a case that the scenario planned, with its counters; the
-- case of a transaction; neither.
pub data Origin : Type 0 where
  authored : Txn → ℕ → ℕ → Origin
  existing nothing : Origin

abbrev pub stamped : Theatre → Txn → Txn
stamped θ t = record t {
  metadata = record (t.metadata) {
    simulation_run_id = some θ.session_id;
    live_session_id = some θ.session_id;
  };
}

abbrev pub fresh_session : Session
fresh_session = record {
  queue = [];
  started = false;
  closed = false;
  terminal = false;
  last_decision = none;
  call_session_id = none;
}

unfoldable pub set_session : Session → Run Stage (Unit {0})
set_session session stage = (ok tt, record stage { session = session })

-- `db.add(txn)`
abbrev pub add_case : Txn → Run Db (Unit {0})
add_case t db = (ok tt, record db { transactions = db.transactions ++ t ∷ [] })

abbrev pub stamp_found : Theatre → Option Txn → Run Stage (Unit {0})
stamp_found θ none = raise key_error
stamp_found θ (some t) = on_db (change_case θ (stamped θ))

-- the row of the session's case
abbrev pub place_case : Theatre → Origin → Run Stage (Unit {0})
place_case θ (authored t nudges attempts) = do
  on_db (add_case (stamped θ t))
  seed_prior_interventions θ nudges attempts
place_case θ existing =
    λ stage. stamp_found θ (find_txn θ.transaction_id stage.store.db.transactions) stage
place_case θ nothing = raise value_error

-- `create_session`; a `LookupError` is raised as the key error
unfoldable pub create_session : Theatre → Origin → Run Stage (Unit {0})
create_session θ origin = do place_case θ origin; set_session fresh_session

-- The arguments of a tool that the client names.
pub record ToolArgs : Type 0 where
  pub first_payment_inr : Option ℕ
  pub amount_inr : Option ℕ
  pub partial_amount_inr : Option ℕ
  pub deadline_days : Option ℕ

abbrev pub either_amount : Option ℕ → Option ℕ → Option ℕ
either_amount none second = second
either_amount (some n) second = some n

-- `request_amount_minor` of `run_agent_tool`
unfoldable pub named_amount : AgentTool → ToolArgs → Option ℕ
named_amount tool args =
    if is_partial_plan tool && is_some args.first_payment_inr
    then args.first_payment_inr
    else either_amount args.amount_inr args.partial_amount_inr

-- `AgentTool.value`
abbrev pub tool_value : AgentTool → Text
tool_value AgentTool.send_whatsapp = codes "SEND_WHATSAPP"
tool_value AgentTool.voice_call = codes "VOICE_CALL"
tool_value AgentTool.generate_payment_link = codes "GENERATE_PAYMENT_LINK"
tool_value AgentTool.generate_qr_code = codes "GENERATE_QR_CODE"
tool_value AgentTool.offer_partial_plan = codes "OFFER_PARTIAL_PLAN"
tool_value AgentTool.offer_fee_waiver = codes "OFFER_FEE_WAIVER"
tool_value AgentTool.schedule_retry = codes "SCHEDULE_RETRY"
tool_value AgentTool.handoff_to_human = codes "HANDOFF_TO_HUMAN"
tool_value AgentTool.stop = codes "STOP"

-- the keyword arguments of its call of `gate_tool`
unfoldable pub named_request : Theatre → AgentTool → ToolArgs → ℕ → ToolRequest
named_request θ tool args attempts = record {
  model_reason = codes "Client-named tool call: " ++ tool_value tool ++ codes ".";
  message = none;
  discount_pct = none;
  request_amount_minor = named_amount tool args;
  deadline_days = args.deadline_days;
  voice_attempts = attempts;
  clock = θ.clock;
  today = θ.today;
}

-- its call of `gate_tool`
abbrev pub gate_named : Theatre → AgentTool → ToolArgs → Txn → Run Db AgentDecision
gate_named θ tool args txn db =
    gate_tool θ.policy txn tool
      (named_request θ tool args (voice_attempt_count db.audits θ.transaction_id none)) db

-- the part of `run_agent_tool` after the gate
unfoldable pub follow_tool : Theatre → AgentDecision → Run Stage (AgentDecision × Option Artifact)
follow_tool θ d = do
  set_last_decision d
  emit (LiveEvent.decision d)
  artifact ← apply_agent_decision θ d [] none
  _ ← report θ
  pure (d, artifact)

unfoldable pub run_tool :
    Theatre → AgentTool → ToolArgs → Run Stage (AgentDecision × Option Artifact)
run_tool θ tool args = do
  txn ← current_txn θ
  d ← on_db (gate_named θ tool args txn)
  follow_tool θ d

-- `run_agent_tool`, on a name that `AgentTool` accepts or not
unfoldable pub run_agent_tool :
    Theatre → Option AgentTool → ToolArgs → Run Stage (AgentDecision × Option Artifact)
run_agent_tool θ none args = raise value_error
run_agent_tool θ (some tool) args = run_tool θ tool args
