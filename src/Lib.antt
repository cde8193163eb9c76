-- ===== src/Lib.antt =====
-- Recova: a payment-recovery engine (Backend/application). A gateway event names a failed payment;
-- the engine classifies it, picks a playbook, and lets an action leave only through deterministic
-- guards: quiet hours, retry and voice caps, and the merchant's policy. Customers' replies are read
-- first: an opt-out or a dispute is meant to end the case.
--
-- The parts, and the file that models each (paths of the source from Backend/application):
--   Constants    constants.py: the enumerations
--   Compliance   operations/compliance_rules.py: keyword screen, caps, quiet hours
--   Dates        helpers.py and `_nth_of_month` of operations/language_parser.py
--   Promise      operations/language_parser.py: extract_p2p_date
--   Classifier   operations/failure_classifier.py
--   Playbooks    operations/playbook_map.py
--   Policy       operations/policy_guard.py; Policy/Store operations/policy_repository.py
--   Reply        operations/reply_understanding.py: verdicts; Reply/Understanding the readings
--   Database     entities/*.py, audit_service.py, escalation_service.py, voice_attempts.py and
--                message_attempts.py of operations
--   Workflow     workflow/workflow_state.py (State), workflow_nodes.py (Nodes, Execute, Graph) and
--                recovery_graph.py (Graph), integrations/routing_dispatcher.py (Execute)
--   Tools        operations/agent_tools.py: tools and decisions; Tools/Branches the gate,
--                Tools/Figures the numbers of an answer, Tools/Proposal decide_tool
--   Artifacts    operations/payment_artifacts.py: mint; Artifacts/Payment the payments
--   Thread       add_message of operations/live_session.py: the messages of the cases
--   Live         operations/live_session.py: the session of one case. Live/Gauge is `_bounds`;
--                Live/Turns, Decisions, Dialogue, Answer, Payments, Cycle and Voice are its operations
--   Draft        operations/draft_guard.py: the check of a drafted message
--   Limiter      operations/rate_limiter.py
--   Report       operations/reconciliation_service.py; Report/Series its series and the whole
--   Router       operations/model_router.py: tiers, providers and attempts
--   Sweeper      operations/deadline_sweeper.py
--   Webhook      endpoints/webhook_api.py, operations/idempotency_service.py
--   Tests        concrete runs
-- The intake runs the graph on a case; the graph and the agent's tools share the guards of Compliance
-- and Policy; the sweeper writes through the gate of Tools and polls through Artifacts. A live session
-- reads a reply through Reply, stops or decides through Tools, mints through Artifacts, dispatches
-- through the dispatcher of Workflow, and writes to Thread; its requests are the relation of
-- Live/Histories.
--
-- How state is modelled. A call that works on the database is a function from the database to a
-- result or an error and the database after it (Prelude/Outcome); commits are immediate, in one
-- session; an edit of the policy keeps the row object of the session beside the committed table.
-- The calls of the channel adapters are a list in the database record, `outbox`. A LangGraph node
-- returns the merged state. Ids and contacts are numbers, which the code only compares. Amounts are
-- paise, and not negative, as the table demands; discounts are hundredths of a percent; a number of
-- a model's answer may be infinite or a NaN; probabilities are ten-thousandths; a share of a bill
-- is rounded half to even on the exact fraction. Text is a list of code points; `lower` and `upper`
-- work on ASCII. An ISO text stands for its date, in years up to 9999. Generated ids and time
-- stamps are left out, and so are wordings: a sentence is a constructor with the figures it quotes;
-- the `to` and `judgment` keys of audit payloads are left out.
-- Parameters: the diagnosis engine, the reply reader, Jev's answers, a model's answer, the keyed
-- digest of the webhooks, the providers' answers to a mint or a poll, the drafted texts, the test of a
-- routed answer, and the dates and clocks.
-- All loops are structural; `decimal_digits` runs on fuel equal to the number it prints.
--
-- A live session's queue is a list of events, where `none` is the end mark; an event keeps the figures
-- that decide something and not its wording. The event loop, its threads and the registry of sessions
-- are left out, since they do not change what one request does.
--
-- Not modelled: the scripted recovery runner, the assistant and the conversations, the simulation, the
-- trackers, the provider clients and the drafter, speech, the other endpoints and the front end.
pub mod Prelude
pub mod Constants
pub mod Compliance
pub mod Dates
pub mod Draft
pub mod Promise
pub mod Classifier
pub mod Playbooks
pub mod Reply
pub mod Database
pub mod Workflow
pub mod Policy
pub mod Tools
pub mod Thread
pub mod Artifacts
pub mod Live
pub mod Limiter
pub mod Report
pub mod Router
pub mod Sweeper
pub mod Webhook
mod Tests
