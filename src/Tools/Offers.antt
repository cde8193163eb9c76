-- ===== src/Tools/Offers.antt =====
-- The tools that the model is offered against those that the gate can allow.
use recova.Prelude.{
  ◌≡◌, refl, ap, ◌∙◌, ◌⊎◌, inl, inr, Bool, true, false, Option, none, some, List, [], ◌∷◌, subst,
  Bool-cases, Among, if◌then◌else◌,
}
use recova.Prelude.Outcome.{Result, ok, err}
use recova.Constants.{Action, Channel, LifecycleState, AgentTool}
use recova.Policy.{Sandbox, action_listed, channel_refused}
use recova.Policy.Gate.{validate-IsCleared, IsCleared}
use recova.Database.{Txn, Db}
use recova.Tools.{ToolRequest, AgentDecision, tool_resolution}
use recova.Tools.Branches.{gate_tool, tool_proposal}
use recova.Tools.Gate.{Concludes, IsGated, gate_tool-IsGated}
use recova.Tools.Proposal.{
  action_withheld, channel_withheld, offered_among, offered_tools, all_tools,
}

offered_among-keeps :
    (policy : Sandbox) (t : AgentTool) (tools : List AgentTool)
    → action_withheld policy (tool_resolution t).0 ≡ false
    → channel_withheld policy (tool_resolution t).1 ≡ false
    → Among t tools
    → Among t (offered_among policy tools)
unfolding offered_among
offered_among-keeps policy t [] ha hc m = m
offered_among-keeps policy t (u ∷ us) ha hc (inl e) =
    rw
      (
        subst (λ x. action_withheld policy (tool_resolution x).0 ≡ false) e ha,
        subst (λ x. channel_withheld policy (tool_resolution x).1 ≡ false) e hc,
      )
      (inl e)
offered_among-keeps policy t (u ∷ us) ha hc (inr m) =
    later (action_withheld policy (tool_resolution u).0)
      (channel_withheld policy (tool_resolution u).1) (offered_among policy us)
      (offered_among-keeps policy t us ha hc m)
  where
    later :
        (b c : Bool) (rest : List AgentTool)
        → Among t rest
        → Among t (if b then rest else if c then rest else u ∷ rest)
    later true c rest h = h
    later false true rest h = h
    later false false rest h = inr h

every_tool : (t : AgentTool) → Among t all_tools
every_tool AgentTool.send_whatsapp = inl refl
every_tool AgentTool.voice_call = inr (inl refl)
every_tool AgentTool.generate_payment_link = inr (inr (inl refl))
every_tool AgentTool.generate_qr_code = inr (inr (inr (inl refl)))
every_tool AgentTool.offer_partial_plan = inr (inr (inr (inr (inl refl))))
every_tool AgentTool.offer_fee_waiver = inr (inr (inr (inr (inr (inl refl)))))
every_tool AgentTool.schedule_retry = inr (inr (inr (inr (inr (inr (inl refl))))))
every_tool AgentTool.handoff_to_human = inr (inr (inr (inr (inr (inr (inr (inl refl)))))))
every_tool AgentTool.stop = inr (inr (inr (inr (inr (inr (inr (inr (inl refl))))))))

module _ (sandbox : Sandbox) (txn : Txn) (tool : AgentTool) (q : ToolRequest) (a : Action) where
  listed-offered :
      (c : Option Channel)
      → action_listed sandbox (tool_proposal txn tool (some a) c q) ≡ true
      → action_withheld sandbox (some a) ≡ false
  unfolding action_listed tool_proposal action_withheld
  listed-offered c h = rw h refl

  kept_channel :
      (c : Option Channel)
      → channel_refused sandbox (tool_proposal txn tool (some a) c q).channel ≡ false
      → channel_withheld sandbox c ≡ false
  unfolding channel_refused tool_proposal channel_withheld
  kept_channel none h = refl
  kept_channel (some c) h = h

-- For a tool with an action, gate_tool returns, and if it allows the tool then the tool is among
-- those that the model is offered under the same policy.
pub gate_tool-Among :
    (sandbox : Sandbox) (txn : Txn) (tool : AgentTool) (q : ToolRequest) (db : Db) (a : Action)
    (c : Option Channel) (st : Option LifecycleState)
    → tool_resolution tool ≡ (some a, c, st)
    → Concludes
        (λ d _. (d.allowed ≡ false) ⊎ Among tool (offered_tools sandbox))
        (gate_tool sandbox txn tool q db)
unfolding offered_tools
gate_tool-Among sandbox txn tool q db a c st h =
    after _ (gate_tool-IsGated sandbox txn tool q db a c st h)
  where
    after :
        (r : Result AgentDecision × Db)
        → Concludes (λ d _. IsGated sandbox txn tool a c q d) r
        → Concludes (λ d _. (d.allowed ≡ false) ⊎ Among tool (offered_among sandbox all_tools)) r
    after (err e, db') g = g
    after (ok d, db') g = elim (Bool-cases d.allowed) [
      | inr refused ↦ inl refused
      | inl allowed ↦
          let cleared : IsCleared sandbox (tool_proposal txn tool (some a) c q) =
            (validate-IsCleared sandbox (tool_proposal txn tool (some a) c q)).0
              (g.allowed_iff.0 allowed).1 in
          inr (
            offered_among-keeps sandbox tool all_tools
              (ap (λ r. action_withheld sandbox r.0) h
                ∙ listed-offered sandbox txn tool q a c cleared.action)
              (ap (λ r. channel_withheld sandbox r.1) h
                ∙ kept_channel sandbox txn tool q a c cleared.channel)
              (every_tool tool))
    ]
