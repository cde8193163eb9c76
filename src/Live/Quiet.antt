-- ===== src/Live/Quiet.antt =====
-- A tool that the client names within quiet hours contacts nobody.
use recova.Prelude.{
  ◌≡◌, refl, Bool, true, false, Option, none, some, List, [], ◌∷◌, arith, ◌&&◌, is_some,
  if◌then◌else◌,
}
use recova.Prelude.Text.{Text}
use recova.Prelude.Outcome.{Run, Result, ok, err, ◌>>=◌}
use recova.Prelude.Steps.{Respects, Respects-bind, Respects-bind_where, OfResult}
use recova.Constants.{
  LifecycleState, ActionType, Outcome, Action, Channel, AgentTool, StoppingRule, Playbook,
}
use recova.Compliance.{is_within_quiet_hours}
use recova.Policy.{Sandbox}
use recova.Database.{Txn, Db, Entry, set_current_state, record_audit, enqueue_escalation}
use recova.Workflow.Silence.{
  Silent, Silent-pure, Silent-bind, Silent-set_current_state, Silent-record_audit,
  Silent-enqueue_escalation,
}
use recova.Tools.{ToolRequest, AgentDecision, tool_resolution, set_state}
use recova.Tools.Branches.{
  some_action, hand_off, stop_case, defer_tool, cap_tool, block_tool, allow_tool, gate_contact,
  gate_tool,
}
use recova.Live.{Stage, Theatre, on_db, set_last_decision}
use recova.Live.Turns.{post_body}
use recova.Live.Decisions.{
  conclude_message, conclude_state, conclude, contact_or_conclude, apply_agent_decision,
}
use recova.Live.Answer.{report_row, report_case, report}
use recova.Live.Cycle.{ToolArgs, named_request, gate_named, follow_tool, run_tool, run_agent_tool}
use recova.Artifacts.{Artifact}
use recova.Thread.{Sender}
use recova.Live.Mute.{
  Mute, Mute-IsPreorder, Mute-on_db, mute_rules, Mute-current, Mute-post, Mute-finish,
  Mute-emit_bounds,
}

-- The decision contacts nobody.
abbrev IsHeld : AgentDecision → Type 0
IsHeld d = (d.allowed && is_some d.channel) ≡ false

module _ (sandbox : Sandbox) (txn : Txn) (q : ToolRequest) (db : Db) where
  retry-IsHeld : OfResult IsHeld (
      gate_contact sandbox txn AgentTool.schedule_retry
        (some Action.retry_charge)
        none
        (some LifecycleState.waiting)
        q
        db)
  unfolding gate_contact cap_tool allow_tool block_tool set_state set_current_state record_audit
      enqueue_escalation
  retry-IsHeld = ground arith

  quiet-IsHeld :
      (tool : AgentTool) (a : Action) (c : Channel) (state : Option LifecycleState)
      → is_within_quiet_hours q.clock.hour ≡ true
      → OfResult IsHeld (gate_contact sandbox txn tool (some a) (some c) state q db)
  unfolding gate_contact defer_tool set_state set_current_state record_audit
  quiet-IsHeld tool a c state quiet = rw quiet refl

  gate-IsHeld :
      (tool : AgentTool)
      → is_within_quiet_hours q.clock.hour ≡ true
      → OfResult IsHeld (gate_tool sandbox txn tool q db)
  unfolding gate_tool tool_resolution hand_off stop_case set_state set_current_state record_audit
      enqueue_escalation
  gate-IsHeld AgentTool.handoff_to_human quiet = refl
  gate-IsHeld AgentTool.stop quiet = refl
  gate-IsHeld AgentTool.schedule_retry quiet = retry-IsHeld
  gate-IsHeld AgentTool.send_whatsapp quiet = quiet-IsHeld _ _ _ _ quiet
  gate-IsHeld AgentTool.voice_call quiet = quiet-IsHeld _ _ _ _ quiet
  gate-IsHeld AgentTool.generate_payment_link quiet = quiet-IsHeld _ _ _ _ quiet
  gate-IsHeld AgentTool.generate_qr_code quiet = quiet-IsHeld _ _ _ _ quiet
  gate-IsHeld AgentTool.offer_partial_plan quiet = quiet-IsHeld _ _ _ _ quiet
  gate-IsHeld AgentTool.offer_fee_waiver quiet = quiet-IsHeld _ _ _ _ quiet

Silent-some_action : (o : Option Action) → Silent (some_action o)
Silent-some_action none = record { at = λ db. refl }
Silent-some_action (some a) = record { at = λ db. refl }

Silent-set_state :
    (txn : Txn) (state : LifecycleState) (action_type : ActionType) (payload : List Entry)
    (outcome : Outcome)
    → Silent (set_state txn state action_type payload outcome)
unfolding set_state
Silent-set_state txn state action_type payload outcome =
    search (Silent-bind, Silent-set_current_state, Silent-record_audit)

Silent-if :
    {A : Type 0} (b : Bool) (m n : Run Db A) → Silent m → Silent n → Silent (if b then m else n)
Silent-if true m n hm hn = hm
Silent-if false m n hm hn = hn

ruleset silent_steps = (
  Silent-pure, Silent-bind, Silent-if, Silent-set_state, Silent-some_action,
  Silent-enqueue_escalation,
)

Silent-gate_contact :
    (sandbox : Sandbox) (txn : Txn) (tool : AgentTool) (a : Option Action) (c : Option Channel)
    (state : Option LifecycleState) (q : ToolRequest)
    → Silent (gate_contact sandbox txn tool a c state q)
unfolding gate_contact defer_tool cap_tool block_tool allow_tool
Silent-gate_contact sandbox txn tool a c state q = search silent_steps depth 12

Silent-gate_tool :
    (sandbox : Sandbox) (txn : Txn) (tool : AgentTool) (q : ToolRequest)
    → Silent (gate_tool sandbox txn tool q)
unfolding gate_tool hand_off stop_case tool_resolution
Silent-gate_tool sandbox txn AgentTool.handoff_to_human q = search silent_steps
Silent-gate_tool sandbox txn AgentTool.stop q = search silent_steps
Silent-gate_tool sandbox txn AgentTool.send_whatsapp q = Silent-gate_contact _ _ _ _ _ _ _
Silent-gate_tool sandbox txn AgentTool.voice_call q = Silent-gate_contact _ _ _ _ _ _ _
Silent-gate_tool sandbox txn AgentTool.generate_payment_link q = Silent-gate_contact _ _ _ _ _ _ _
Silent-gate_tool sandbox txn AgentTool.generate_qr_code q = Silent-gate_contact _ _ _ _ _ _ _
Silent-gate_tool sandbox txn AgentTool.offer_partial_plan q = Silent-gate_contact _ _ _ _ _ _ _
Silent-gate_tool sandbox txn AgentTool.offer_fee_waiver q = Silent-gate_contact _ _ _ _ _ _ _
Silent-gate_tool sandbox txn AgentTool.schedule_retry q = Silent-gate_contact _ _ _ _ _ _ _

module _ (θ : Theatre) where
  Mute-post_body :
      (sender : Sender) (a : Option Artifact) (body : Text)
      → Respects Mute (post_body θ sender a body)
  Mute-post_body sender a [] = search mute_rules
  Mute-post_body sender a (c ∷ body) = Mute-post θ _ _ _ _

  Mute-conclude_message :
      (d : AgentDecision) (body : Text) → Respects Mute (conclude_message θ d body)
  unfolding conclude_message
  Mute-conclude_message d body = search (mute_rules, Mute-post_body)

  Mute-conclude_state :
      (state : Option LifecycleState) (rule : Option StoppingRule)
      → Respects Mute (conclude_state θ state rule)
  Mute-conclude_state none rule = search mute_rules
  Mute-conclude_state (some LifecycleState.escalated) rule = Mute-finish θ _ rule
  Mute-conclude_state (some LifecycleState.cancelled) rule = Mute-finish θ _ rule
  Mute-conclude_state (some LifecycleState.waiting) rule = search (mute_rules, Mute-emit_bounds)
  Mute-conclude_state (some LifecycleState.pending) rule = search mute_rules
  Mute-conclude_state (some LifecycleState.diagnosing) rule = search mute_rules
  Mute-conclude_state (some LifecycleState.intervening) rule = search mute_rules
  Mute-conclude_state (some LifecycleState.recovered) rule = search mute_rules
  Mute-conclude_state (some LifecycleState.failed) rule = search mute_rules

  Mute-conclude : (d : AgentDecision) (body : Text) → Respects Mute (conclude θ d body)
  unfolding conclude
  Mute-conclude d body = search (mute_rules, Mute-conclude_message, Mute-conclude_state)

  Mute-apply_held :
      (d : AgentDecision) (body : Text) (playbook : Option Playbook)
      → IsHeld d
      → Respects Mute (apply_agent_decision θ d body playbook)
  unfolding apply_agent_decision
  Mute-apply_held d body playbook held =
      Respects-bind Mute-IsPreorder _ _ (Mute-current θ) λ t. by_channel t d.allowed d.channel held
    where
      by_channel :
          (t : Txn) (allowed : Bool) (c : Option Channel)
          → (allowed && is_some c) ≡ false
          → Respects Mute (contact_or_conclude θ d body playbook t allowed c)
      by_channel t true (some c) h = ground arith
      by_channel t true none h = Mute-conclude d body
      by_channel t false (some c) h = Mute-conclude d body
      by_channel t false none h = Mute-conclude d body

  Mute-set_last_decision : (d : AgentDecision) → Respects Mute (set_last_decision d)
  unfolding set_last_decision
  Mute-set_last_decision d = record {
    at = λ s. record { outbox = refl; artifacts = refl; calls = refl };
  }

  Mute-report_row : (t : Txn) (b : Bool) → Respects Mute (report_row θ t b)
  unfolding report_row
  Mute-report_row t true = search mute_rules
  Mute-report_row t false = search (mute_rules, Mute-emit_bounds)

  Mute-report_case : (t : Txn) → Respects Mute (report_case θ t)
  unfolding report_case
  Mute-report_case t = record { at = λ s. (Mute-report_row t s.session.terminal).at s }

  Mute-report : Respects Mute (report θ)
  unfolding report
  Mute-report = search (mute_rules, Mute-current, Mute-report_case)

  Mute-follow_tool : (d : AgentDecision) → IsHeld d → Respects Mute (follow_tool θ d)
  unfolding follow_tool
  Mute-follow_tool d held =
      search (mute_rules, Mute-set_last_decision, Mute-apply_held, Mute-report) depth 12

  module _ (quiet : is_within_quiet_hours θ.clock.hour ≡ true) where
    Mute-gated :
        (tool : AgentTool) (args : ToolArgs) (t : Txn)
        → Respects Mute (on_db (gate_named θ tool args t) >>= follow_tool θ)
    unfolding on_db named_request
    Mute-gated tool args t =
        Respects-bind_where Mute-IsPreorder _ _
          (Mute-on_db _ (record { at = λ db. (Silent-gate_tool θ.policy t tool _).at db }))
          (record { at = λ s. held s }) Mute-follow_tool
      where
        carry :
            (r : Result AgentDecision × Db) (s : Stage)
            → OfResult IsHeld r
            → OfResult IsHeld (r.0, s)
        carry (ok d, db) s h = h
        carry (err e, db) s h = h

        held : (s : Stage) → OfResult IsHeld (on_db (gate_named θ tool args t) s)
        held s = carry _ _ (gate-IsHeld θ.policy t _ s.store.db tool quiet)

    Mute-run_tool : (tool : AgentTool) (args : ToolArgs) → Respects Mute (run_tool θ tool args)
    unfolding run_tool
    Mute-run_tool tool args =
        Respects-bind Mute-IsPreorder _ (λ t. on_db (gate_named θ tool args t) >>= follow_tool θ)
          (Mute-current θ) λ t. Mute-gated tool args t

-- Within quiet hours, a tool that the client names, whatever it is, makes no adapter call, no
-- artifact and no voice call.
pub run_agent_tool-quiet :
    (θ : Theatre) (o : Option AgentTool) (args : ToolArgs) (s : Stage)
    → is_within_quiet_hours θ.clock.hour ≡ true
    → Mute s (run_agent_tool θ o args s).1
unfolding run_agent_tool
run_agent_tool-quiet θ none args s quiet = Mute-IsPreorder.stays s
run_agent_tool-quiet θ (some tool) args s quiet = (Mute-run_tool θ quiet tool args).at s
