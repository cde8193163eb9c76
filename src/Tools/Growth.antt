-- ===== src/Tools/Growth.antt =====
-- The gate of a tool works on its own case alone, and so does `decide_tool`.
use recova.Prelude.{ℕ, ◌≡◌, ◌⊎◌, subst, List, or_else, Option, none, some, Option-cases, inl, inr}
use recova.Prelude.Int.{Number}
use recova.Constants.{FailureClass, LifecycleState, ActionType, Outcome, Action, Channel, AgentTool}
use recova.Dates.{Date, Moment}
use recova.Policy.{Sandbox}
use recova.Database.{Txn, Db, Entry, find_txn, voice_attempt_count}
use recova.Database.Rows.{find_txn-key}
use recova.Database.Growth.{Grows, Grown, Grows-refl, grown_rules}
use recova.Tools.{ToolRequest, tool_resolution, set_state}
use recova.Tools.Branches.{
  some_action, hand_off, stop_case, defer_tool, cap_tool, block_tool, allow_tool, gate_contact,
  gate_tool,
}
use recova.Prelude.Outcome.{Result, ok, err}
use recova.Tools.Figures.{ToolPayload, Figures, read_figures}
use recova.Tools.Proposal.{gate_figures, gate_proposed, proposed_or_default, decide_tool}

Grown-set_state :
    (txn : Txn) (state : LifecycleState) (action_type : ActionType) (payload : List Entry)
    (outcome : Outcome)
    → Grown txn.transaction_id (set_state txn state action_type payload outcome)
unfolding set_state
Grown-set_state txn state action_type payload outcome = search grown_rules

Grown-some_action : (key : ℕ) (o : Option Action) → Grown key (some_action o)
Grown-some_action key none = search grown_rules
Grown-some_action key (some a) = search grown_rules

Grown-gate_contact :
    (sandbox : Sandbox) (txn : Txn) (tool : AgentTool) (a : Option Action) (c : Option Channel)
    (state : Option LifecycleState) (q : ToolRequest)
    → Grown txn.transaction_id (gate_contact sandbox txn tool a c state q)
unfolding gate_contact defer_tool cap_tool block_tool allow_tool
Grown-gate_contact sandbox txn tool a c state q =
    search (grown_rules, Grown-set_state, Grown-some_action) depth 12

-- A gated tool, whatever it is, only appends to the audit trail and the tickets, and changes no row
-- of any other case.
pub Grown-gate_tool :
    (sandbox : Sandbox) (txn : Txn) (tool : AgentTool) (q : ToolRequest)
    → Grown txn.transaction_id (gate_tool sandbox txn tool q)
unfolding gate_tool hand_off stop_case tool_resolution
Grown-gate_tool sandbox txn AgentTool.handoff_to_human q = search (grown_rules, Grown-set_state)
Grown-gate_tool sandbox txn AgentTool.stop q = search (grown_rules, Grown-set_state)
Grown-gate_tool sandbox txn AgentTool.send_whatsapp q = Grown-gate_contact sandbox txn _ _ _ _ q
Grown-gate_tool sandbox txn AgentTool.voice_call q = Grown-gate_contact sandbox txn _ _ _ _ q
Grown-gate_tool sandbox txn AgentTool.generate_payment_link q =
    Grown-gate_contact sandbox txn _ _ _ _ q
Grown-gate_tool sandbox txn AgentTool.generate_qr_code q = Grown-gate_contact sandbox txn _ _ _ _ q
Grown-gate_tool sandbox txn AgentTool.offer_partial_plan q =
    Grown-gate_contact sandbox txn _ _ _ _ q
Grown-gate_tool sandbox txn AgentTool.offer_fee_waiver q = Grown-gate_contact sandbox txn _ _ _ _ q
Grown-gate_tool sandbox txn AgentTool.schedule_retry q = Grown-gate_contact sandbox txn _ _ _ _ q

module _ (policy sandbox : Sandbox) (key : ℕ) (payload : ToolPayload) (fc : Option FailureClass)
    (discount : Option Number) (attempts : Option ℕ) (clock : Moment) (day : Date) where
  figured :
      (db : Db) (txn : Txn) (tool : AgentTool) (spent : ℕ) (r : Result Figures)
      → Grows txn.transaction_id db
          (gate_figures policy sandbox txn payload spent clock day tool r db).1
  unfolding gate_figures
  figured db txn tool spent (err e) = Grows-refl txn.transaction_id db
  figured db txn tool spent (ok figures) = (Grown-gate_tool sandbox txn _ _).at db

  gated :
      (db : Db) (txn : Txn) (tool : Option AgentTool)
      → Grows txn.transaction_id db
          (gate_proposed policy sandbox txn payload discount attempts clock day tool db).1
  unfolding gate_proposed
  gated db txn none = Grows-refl txn.transaction_id db
  gated db txn (some tool) =
      figured db txn tool (voice_attempt_count db.audits txn.transaction_id attempts)
        (read_figures payload discount txn.amount_minor)

  -- `decide_tool`, whatever the model answered, only appends to the audit trail and the tickets, and
  -- changes no row of any other case.
  pub Grown-decide_tool :
      Grown key (decide_tool policy sandbox key payload fc discount attempts clock day)
  unfolding decide_tool
  Grown-decide_tool = record { at = λ db. found db (Option-cases (find_txn key db.transactions)) }
    where
      found :
          (db : Db)
          → (find_txn key db.transactions ≡ none)
            ⊎ ((t : Txn) × (find_txn key db.transactions ≡ some t))
          → Grows key db
              (decide_tool policy sandbox key payload fc discount attempts clock day db).1
      found db (inl missing) = rw (missing, decide_tool) (Grows-refl key db)
      found db (inr (t, here)) =
          rw (here, decide_tool)
            (subst
              (λ k.
                Grows k db
                  (gate_proposed policy sandbox t payload discount attempts clock day
                    (proposed_or_default payload.tool (or_else fc t.failure_class)) db).1)
              (find_txn-key key db.transactions here) (gated db t _))
