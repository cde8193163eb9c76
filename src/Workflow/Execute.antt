-- ===== src/Workflow/Execute.antt =====
-- workflow_nodes.py: the node execute, with the dispatcher of integrations/routing_dispatcher.py.
use recova.Prelude.{
  ℕ, Bool, true, false, ◌&&◌, not, Option, none, some, List, [], ◌∷◌, ◌++◌, ◌==◌, is_some, or_else,
  if◌then◌else◌,
}
use recova.Prelude.Int.{Number}
use recova.Prelude.Outcome.{
  Run, ok, pure, raise, no_dispatcher_route, value_error, key_error, ◌>>=◌, ◌>>◌,
}
use recova.Constants.{
  LifecycleState, NodeName, ActionType, Outcome, Channel, Action, StoppingRule, Playbook,
}
use recova.Dates.{Moment, next_quiet_hours_end}
use recova.Compliance.{
  rbi_max_retries, is_within_quiet_hours, retry_cap_exceeded, voice_attempts_exhausted,
}
use recova.Policy.{PolicyReason, ActionName, ChannelName, ProposedAction, validate}
use recova.Playbooks.{playbook_action}
use recova.Database.{
  Txn, Db, Sentence, Entry, AdapterCall, whatsapp_send, create_payment_link, one_txn,
  set_current_state, record_audit, enqueue_escalation, voice_attempt_count, same_channel,
}
use recova.Workflow.State.{PlaybookName, RecoveryState, Deps}
use recova.Workflow.Nodes.{finalize, stopped}

-- `dispatch` of `build_dispatcher`; the adapters' own work is the call that is recorded
abbrev pub send : AdapterCall → Run Db (Unit {0})
send call db = (ok tt, record db { outbox = db.outbox ++ call ∷ [] })

-- `action.amount_minor or txn.amount_minor`
abbrev pub amount_or : Option ℕ → ℕ → ℕ
amount_or none total = total
amount_or (some n) total = if n == 0 then total else n

unfoldable pub adapter_call : Txn → Option ℕ → Action → Option AdapterCall
adapter_call t amount Action.send_whatsapp = some (whatsapp_send t.customer_contact)
adapter_call t amount Action.offer_fee_waiver = some (whatsapp_send t.customer_contact)
adapter_call t amount Action.voice_call = some (AdapterCall.voice_call t.customer_contact)
adapter_call t amount Action.generate_payment_link =
    some (create_payment_link (amount_or amount t.amount_minor) t.customer_contact t.failure_class)
adapter_call t amount Action.retry_charge = some (AdapterCall.retry_charge t.transaction_id)
adapter_call t amount Action.cancel_subscription =
    some (AdapterCall.cancel_subscription t.transaction_id)
adapter_call t amount Action.generate_qr_code = none
adapter_call t amount Action.offer_partial_plan = none

abbrev pub send_routed : Option AdapterCall → Run Db (Unit {0})
send_routed none = raise no_dispatcher_route
send_routed (some call) = send call

unfoldable pub dispatch : Action → Option ℕ → ℕ → Run Db (Unit {0})
dispatch action amount key = do txn ← one_txn key; send_routed (adapter_call txn amount action)

-- The action that `execute` builds from the persisted transaction.
abbrev pub proposal : Action → Option Channel → Option Number → ℕ → ProposedAction
proposal action channel discount amount = record {
  action = ActionName.known action;
  channel = elim channel [ none ↦ none | some c ↦ some (ChannelName.known c) ];
  discount_pct = discount;
  amount_minor = some amount;
  total_amount_minor = none;
  is_partial = none;
}

abbrev pub playbook_of_state : Option PlaybookName → Run Db Playbook
playbook_of_state none = raise key_error
playbook_of_state (some (PlaybookName.unknown _)) = raise value_error
playbook_of_state (some (PlaybookName.known p)) = pure p

-- the quiet-hours branch of `execute`
unfoldable pub defer : Action → Moment → RecoveryState → Run Db RecoveryState
defer action clock s = do
  set_current_state s.transaction_id LifecycleState.waiting
  record_audit (record {
    transaction_id = s.transaction_id;
    node_name = NodeName.execute_intervention;
    action_type = ActionType.retry_scheduled;
    payload =
        Entry.stopping_rule StoppingRule.trai_quiet_hours
        ∷ Entry.reason (Sentence.quiet_hours (next_quiet_hours_end clock))
        ∷ Entry.scheduled_at (next_quiet_hours_end clock)
        ∷ Entry.deferred_action action
        ∷ [];
    outcome = Outcome.success;
  })
  pure (record s {
    disposition = some LifecycleState.waiting;
    stopping_rule = some StoppingRule.trai_quiet_hours;
    lifecycle = some LifecycleState.waiting;
  })

-- the two cap branches of `execute`
unfoldable pub cancel_for : StoppingRule → List Entry → RecoveryState → Run Db RecoveryState
cancel_for rule more s = do
  finalize s.transaction_id LifecycleState.cancelled NodeName.execute_intervention
      (Entry.stopping_rule rule ∷ more) Outcome.success
  pure (stopped LifecycleState.cancelled rule s)

-- the branch of `execute` on a refusal by the sandbox
unfoldable pub refuse_action : PolicyReason → Action → RecoveryState → Run Db RecoveryState
refuse_action why action s = do
  enqueue_escalation
      (record { transaction_id = s.transaction_id; reason = Sentence.policy why; rule = none })
  finalize s.transaction_id LifecycleState.escalated NodeName.execute_intervention
      (Entry.policy_block why ∷ Entry.action action ∷ []) Outcome.escalated
  pure (record s { disposition = some LifecycleState.escalated })

-- the end of `execute`: the approved action goes out
unfoldable pub carry_out :
    Txn → Playbook → Action → Option Channel → RecoveryState → Run Db RecoveryState
carry_out txn playbook action channel s = do
  set_current_state s.transaction_id LifecycleState.intervening
  dispatch action (some txn.amount_minor) s.transaction_id
  record_audit (record {
    transaction_id = s.transaction_id;
    node_name = NodeName.execute_intervention;
    action_type = ActionType.intervention_dispatch;
    payload = Entry.action action ∷ Entry.channel channel ∷ Entry.playbook playbook ∷ [];
    outcome = Outcome.success;
  })
  pure (record s { lifecycle = some LifecycleState.intervening })

-- the sandbox in `execute`
unfoldable pub intervene :
    Deps → Txn → Playbook → Action → Option Channel → RecoveryState → Run Db RecoveryState
intervene deps txn playbook action channel s =
    let a = proposal action channel s.proposed_discount_pct txn.amount_minor in
    let decision = validate deps.sandbox a in
    if not decision.approved
    then refuse_action decision.reason action s
    else carry_out txn playbook action channel s

abbrev pub is_retry : Action → Bool
is_retry Action.retry_charge = true
is_retry _ = false

abbrev pub on_channel : Channel → Option Channel → Bool
on_channel c none = false
on_channel c (some d) = same_channel c d

-- What stops an intervention before the sandbox, in the order quiet hours, retry cap, voice cap.
unfoldable pub armed_rule : Action → Option Channel → ℕ → ℕ → ℕ → ℕ → Option StoppingRule
armed_rule action channel hour retries max_retries voice_attempts =
    if is_some channel && is_within_quiet_hours hour
    then some StoppingRule.trai_quiet_hours
    else if is_retry action && retry_cap_exceeded retries max_retries
    then some StoppingRule.rbi_max_retries
    else if on_channel Channel.voice channel && voice_attempts_exhausted voice_attempts
    then some StoppingRule.voice_attempt_cap
    else none

-- the guards of `execute`, written as the source nests them
unfoldable pub gate :
    Deps
    → Txn
    → Playbook
    → Action
    → Option Channel
    → Moment
    → ℕ
    → RecoveryState
    → Run Db RecoveryState
gate deps txn playbook action channel clock attempts s =
    if is_some channel && is_within_quiet_hours clock.hour
    then defer action clock s
    else if is_retry action && retry_cap_exceeded (or_else s.retry_count 0) rbi_max_retries
    then cancel_for StoppingRule.rbi_max_retries [] s
    else if on_channel Channel.voice channel && voice_attempts_exhausted attempts
    then cancel_for StoppingRule.voice_attempt_cap (Entry.reason (Sentence.voice_cap attempts) ∷ [])
        s
    else intervene deps txn playbook action channel s

unfoldable pub execute : Deps → RecoveryState → Run Db RecoveryState
execute deps s db =
    (do
      txn ← one_txn s.transaction_id
      p ← playbook_of_state s.playbook
      gate deps txn p (playbook_action p).0 (playbook_action p).1 (or_else s.now_ist deps.clock)
          (voice_attempt_count db.audits s.transaction_id s.voice_attempts) s)
      db
