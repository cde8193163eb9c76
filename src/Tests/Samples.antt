-- ===== src/Tests/Samples.antt =====
-- The data of the concrete runs.
use recova.Prelude.{arith, true, false, none, some, [], ◌∷◌}
use recova.Prelude.Text.{Text, codes}
use recova.Constants.{
  FailureClass, LifecycleState, Playbook, ArtifactKind, ArtifactStatus, AgentTool,
}
use recova.Dates.{Date, Moment, days_in_month}
use recova.Dates.Calendar.{IsDate}
use recova.Policy.{Sandbox}
use recova.Policy.Store.{defaults}
use recova.Reply.{Probabilities}
use recova.Database.{Txn, Db}
use recova.Workflow.State.{Deps, Diagnosis, RecoveryState, PlaybookName}
use recova.Tools.{ToolRequest}
use recova.Tools.Figures.{ToolPayload}
use recova.Artifacts.{Artifact, Store, Providers, Terms, Detail}
use recova.Artifacts.Payment.{Poll}
use recova.Webhook.{Delivery, Verifier, Intake, initial_state}

-- 5 October 2026, at noon and at nine in the evening
abbrev pub some_day : Date
some_day = record { year = 2026; month = 10; day = 5 }

pub some_day-IsDate : IsDate some_day
unfolding days_in_month
some_day-IsDate = record {
  month_low = omega arith;
  month_high = omega arith;
  day_low = omega arith;
  day_high = omega arith;
}

abbrev pub noon : Moment
noon = record { date = some_day; hour = 12; minute = 0; second = 0; microsecond = 0 }

abbrev pub evening : Moment
evening = record { date = some_day; hour = 21; minute = 0; second = 0; microsecond = 0 }

abbrev pub policy : Sandbox
policy = record {
  max_discount_pct = 15;
  max_amount_minor = some 1000000;
  allow_partial_payment = true;
  min_partial_payment_pct = 50;
  allowed_channels = defaults.allowed_channels;
  allowed_actions = defaults.allowed_actions;
}

abbrev pub case_7 : Txn
case_7 = record {
  transaction_id = 7;
  failure_class = FailureClass.realtime_degradation;
  current_state = LifecycleState.waiting;
  retry_count = 0;
  max_retries = 3;
  customer_contact = 91;
  amount_minor = 100000;
  metadata = record {
    payment_link_id = none;
    balance_due_minor = some 40000;
    balance_deadline = none;
    is_at_risk = none;
    simulation_run_id = none;
    live_session_id = none;
    unworked = none;
    calendar_reminder = none;
    next_debit_date = none;
  };
}

abbrev pub books : Db
books = record { transactions = case_7 ∷ []; audits = []; escalations = []; outbox = [] }

abbrev pub advice : Diagnosis
advice = record {
  root_cause = codes "bank down";
  recommended_playbook = Playbook.reroute_rail;
  user_intent_detected = none;
  extracted_p2p_date = none;
  confidence = 7000;
  proposed_discount_pct = none;
}

abbrev pub wiring : Deps
wiring = record {
  diagnosis = λ _ _. advice;
  sandbox = policy;
  clock = noon;
  today = some_day;
  read_reply = none;
}

abbrev pub event_1 : Delivery
event_1 = record {
  raw_body = codes "{}";
  signature = some 5;
  event_type = codes "payment.failed";
  header_event_id = some 1;
  body_event_id = none;
  error_code = some (codes "ISSUER_DOWN");
  entity_id = 7;
  noted_transaction_id = none;
  entity_contact = some 91;
  noted_contact = none;
  amount_minor = some 100000;
}

abbrev pub verifier : Verifier
verifier = record { secret = some (codes "key"); digest = λ _ _. 5 }

abbrev pub inbox : Intake
inbox = record { db = books; events = [] }

abbrev pub fresh : RecoveryState
fresh = initial_state event_1

abbrev pub stop_text : Text
stop_text = codes "STOP"

abbrev pub stopped_run : RecoveryState
stopped_run = record fresh { user_message = some stop_text }

abbrev pub ready_run : RecoveryState
ready_run = record fresh { playbook = some (PlaybookName.known Playbook.reroute_rail) }

abbrev pub ask : ToolRequest
ask = record {
  model_reason = codes "late";
  message = none;
  discount_pct = none;
  request_amount_minor = some 60000;
  deadline_days = some 7;
  voice_attempts = 0;
  clock = noon;
  today = some_day;
}

abbrev pub answer : ToolPayload
answer = record {
  tool = some AgentTool.offer_partial_plan;
  reason = codes "late";
  message = none;
  discount_pct = none;
  partial_amount_inr = none;
  amount_inr = none;
  deadline_days = none;
}

abbrev pub calm : Probabilities
calm = record {
  wants_cancel = 100;
  wants_no_contact = 100;
  disputes_charge = 100;
  manipulation = 100;
  claims_already_paid = 100;
  hardship = 100;
  commits_to_pay = 9000;
}

abbrev pub plan : Artifact
plan = record {
  id = 1;
  transaction_id = 7;
  kind = ArtifactKind.link;
  provider_id = some 55;
  amount_minor = 60000;
  accept_partial = true;
  first_min_partial_minor = none;
  deadline = some noon;
  status = ArtifactStatus.created;
  amount_paid_minor = 0;
  simulated = false;
  detail = Detail.mcp;
  followed_up_at = none;
}

abbrev pub shop : Store
shop = record { db = books; artifacts = plan ∷ []; messages = []; next_id = 2 }

abbrev pub providers : Providers
providers = record { mcp_id = some 56; sdk_id = none; have_keys = true; cancels = λ _. true }

abbrev pub terms : Terms
terms = record {
  kind = ArtifactKind.link;
  amount_minor = 60000;
  accept_partial = true;
  first_min_partial_minor = none;
  deadline = some noon;
}

abbrev pub no_news : Poll
no_news = record { mcp = none; sdk = none; have_keys = false }
