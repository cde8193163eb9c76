-- ===== src/Tools/Gate.antt =====
-- The gate of a tool: its order of guards against that of the graph, and what it commits.
use recova.Prelude.{
  ◌≡◌, refl, sym, ◌↔◌, Bool, true, false, Option, none, some, arith, if◌then◌else◌, Bool-cases, inl,
  inr,
}
use recova.Prelude.Outcome.{Result, ok, err}
use recova.Constants.{LifecycleState, Channel, Action, StoppingRule, AgentTool}
use recova.Policy.{Sandbox, validate, PolicyReason}
use recova.Database.{Txn, Db, Sentence, set_current_state, record_audit, enqueue_escalation}
use recova.Workflow.Execute.{armed_rule, is_retry, on_channel}
use recova.Tools.{ToolRequest, AgentDecision, tool_resolution, set_state}
use recova.Tools.Branches.{
  tool_proposal, defer_tool, cap_tool, block_tool, allow_tool, is_retry_charge, is_voice,
  is_schedule_retry, gate_contact, gate_tool,
}

-- The call returns, and its decision and database satisfy the predicate.
abbrev pub Concludes : (AgentDecision → Db → Type 0) → Result AgentDecision × Db → Type 0
Concludes P (ok d, db) = P d db
Concludes P (err e, db) = ⊥

-- A decision against the guards in the order of the graph's own gate.
pub record IsGated (sandbox : Sandbox) (txn : Txn) (tool : AgentTool) (a : Action)
    (c : Option Channel) (q : ToolRequest) (d : AgentDecision) : Type 0 where
  pub rule :
      d.stopping_rule ≡ armed_rule a c q.clock.hour txn.retry_count txn.max_retries q.voice_attempts
  pub allowed_iff : (d.allowed ≡ true) ↔ (
      (d.stopping_rule ≡ none)
      × ((validate sandbox (tool_proposal txn tool (some a) c q)).approved ≡ true))

is_retry_charge-is_retry : (a : Action) → is_retry_charge (some a) ≡ is_retry a
is_retry_charge-is_retry a = ground arith

is_voice-on_channel : (c : Option Channel) → is_voice c ≡ on_channel Channel.voice c
is_voice-on_channel c = ground arith

-- The shape of a decision, on what the guards found.
abbrev Shape : Option StoppingRule → Bool → Result AgentDecision × Db → Type 0
Shape rule approved r =
    Concludes
      (λ d _.
        (d.stopping_rule ≡ rule)
        × ((d.allowed ≡ true) ↔ ((d.stopping_rule ≡ none) × (approved ≡ true))))
      r

allow_tool-Shape :
    (txn : Txn) (tool : AgentTool) (a : Option Action) (c : Option Channel)
    (st : Option LifecycleState) (why : PolicyReason) (q : ToolRequest) (db : Db)
    → Shape none true (allow_tool txn tool a c st why q db)
unfolding allow_tool set_state set_current_state record_audit
allow_tool-Shape txn tool a c st why q db = elim (Bool-cases (is_schedule_retry tool)) [
  | inl scheduled ↦ rw scheduled (refl, (λ _. (refl, refl), λ _. refl))
  | inr immediate ↦ rw immediate (refl, (λ _. (refl, refl), λ _. refl))
]

refused_iff : {P : Type 0} → (false ≡ true) ↔ (P × (false ≡ true))
refused_iff = (λ h. ground arith, λ h. h.1)

ruled_iff : {P : Type 0} {r : StoppingRule} → (false ≡ true) ↔ ((some r ≡ none) × P)
ruled_iff = (λ h. ground arith, λ h. ground arith)

module _ (txn : Txn) (tool : AgentTool) (a : Action) (c : Option Channel)
    (st : Option LifecycleState) (q : ToolRequest) (db : Db) where
  sandboxed-Shape :
      (approved : Bool) (why : PolicyReason)
      → Shape none approved (
          (if approved then allow_tool txn tool (some a) c st why q else block_tool txn tool why q)
            db)
  unfolding block_tool set_state set_current_state record_audit enqueue_escalation
  sandboxed-Shape true why = allow_tool-Shape txn tool (some a) c st why q db
  sandboxed-Shape false why = (refl, refused_iff)

  guarded-Shape :
      (quiet capped spent approved : Bool) (why : PolicyReason) (s1 s2 : Sentence)
      → Shape
          (if quiet
            then some StoppingRule.trai_quiet_hours
            else if capped
            then some StoppingRule.rbi_max_retries
            else if spent
            then some StoppingRule.voice_attempt_cap
            else none)
          approved
          ((if quiet
              then defer_tool txn tool (some a) c q
              else if capped
              then cap_tool txn tool (some a) c StoppingRule.rbi_max_retries s1 q
              else if spent
              then cap_tool txn tool (some a) c StoppingRule.voice_attempt_cap s2 q
              else if approved
              then allow_tool txn tool (some a) c st why q
              else block_tool txn tool why q)
            db)
  unfolding defer_tool cap_tool set_state set_current_state record_audit
  guarded-Shape true capped spent approved why s1 s2 = (refl, ruled_iff)
  guarded-Shape false true spent approved why s1 s2 = (refl, ruled_iff)
  guarded-Shape false false true approved why s1 s2 = (refl, ruled_iff)
  guarded-Shape false false false approved why s1 s2 = sandboxed-Shape approved why

IsGated-of :
    (sandbox : Sandbox) (txn : Txn) (tool : AgentTool) (a : Action) (c : Option Channel)
    (q : ToolRequest) (r : Result AgentDecision × Db)
    → Shape
        (armed_rule a c q.clock.hour txn.retry_count txn.max_retries q.voice_attempts)
        (validate sandbox (tool_proposal txn tool (some a) c q)).approved
        r
    → Concludes (λ d _. IsGated sandbox txn tool a c q d) r
IsGated-of sandbox txn tool a c q (ok d, db) (rule, iff) = record { rule = rule; allowed_iff = iff }
IsGated-of sandbox txn tool a c q (err e, db) h = elim h [ ]

gate_contact-IsGated :
    (sandbox : Sandbox) (txn : Txn) (tool : AgentTool) (a : Action) (c : Option Channel)
    (st : Option LifecycleState) (q : ToolRequest) (db : Db)
    → Concludes
        (λ d _. IsGated sandbox txn tool a c q d)
        (gate_contact sandbox txn tool (some a) c st q db)
unfolding gate_contact armed_rule
gate_contact-IsGated sandbox txn tool a c st q db = IsGated-of sandbox txn tool a c q _ (
    rw (sym (is_retry_charge-is_retry a), sym (is_voice-on_channel c))
      (guarded-Shape txn tool a c st q db _ _ _ _ _ _ _))

-- A tool with an action runs through the guards.
gate_tool-gate_contact :
    (sandbox : Sandbox) (txn : Txn) (tool : AgentTool) (q : ToolRequest) {a : Action}
    {c : Option Channel} {st : Option LifecycleState}
    → tool_resolution tool ≡ (some a, c, st)
    → gate_tool sandbox txn tool q ≡ gate_contact sandbox txn tool (some a) c st q
unfolding gate_tool tool_resolution
gate_tool-gate_contact sandbox txn tool q h = ground arith

-- For a tool with an action, gate_tool returns; the rule it reports is the one that the graph's
-- gate arms on the same figures and the transaction's retry cap, and it allows the tool exactly if
-- no rule is armed and the sandbox approves.
pub gate_tool-IsGated :
    (sandbox : Sandbox) (txn : Txn) (tool : AgentTool) (q : ToolRequest) (db : Db) (a : Action)
    (c : Option Channel) (st : Option LifecycleState)
    → tool_resolution tool ≡ (some a, c, st)
    → Concludes (λ d _. IsGated sandbox txn tool a c q d) (gate_tool sandbox txn tool q db)
gate_tool-IsGated sandbox txn tool q db a c st h =
    rw (gate_tool-gate_contact sandbox txn tool q h)
      (gate_contact-IsGated sandbox txn tool a c st q db)
