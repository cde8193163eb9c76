-- ===== src/Tools/Choice.antt =====
-- The tool that goes to the gate, and the bounds on the amount and the deadline of a proposal.
use recova.Prelude.{
  ℕ, ◌≡◌, ◌≤◌, ap, ◌∙◌, refl, ◌↔◌, ◌⊎◌, Bool, true, false, ◌&&◌, not, Option, none, some, max,
  arith, if◌then◌else◌, subst, sym, or_else,
}
use recova.Prelude.Int.{Number}
use recova.Prelude.Outcome.{Result, ok, err}
use recova.Tools.Figures.{ToolPayload, Figures, read_figures}
use recova.Constants.{Playbook, AgentTool, FailureClass}
use recova.Dates.{Date, Moment}
use recova.Compliance.{voice_attempts_exhausted, whatsapp_nudges_exhausted}
use recova.Policy.{Sandbox}
use recova.Playbooks.{playbook_action, default_playbook}
use recova.Database.{Txn, Db, find_txn, whatsapp_nudge_count}
use recova.Tools.Branches.{gate_tool}
use recova.Database.Rows.{find_txn-key}
use recova.Tools.Gate.{Concludes}
use recova.Tools.Commit.{IsCommitted, gate_tool-IsCommitted}
use recova.Tools.{ToolRequest, AgentDecision, tool_resolution}
use recova.Tools.Proposal.{
  tool_for_playbook, first_tool, switches_to_voice, switched_tool, voice_is_permitted,
  is_send_whatsapp, takes_amount, tool_request, proposed_or_default, gate_figures, gate_proposed,
  decide_tool,
}
use recova.Tools.Readable.{
  IsReadable, read_amount-bounds, read_deadline-bounds, read_figures-parts, read_figures-ok,
}

-- Every playbook has a tool, and that tool stands for the playbook's own action and channel.
tool_for_playbook-resolves :
    (p : Playbook)
    → (tool : AgentTool) × (tool_for_playbook p ≡ some tool)
      × ((tool_resolution tool).0 ≡ some (playbook_action p).0)
      × ((tool_resolution tool).1 ≡ (playbook_action p).1)
unfolding tool_for_playbook first_tool tool_resolution playbook_action
tool_for_playbook-resolves Playbook.reroute_rail = (_, refl, refl, refl)
tool_for_playbook-resolves Playbook.preauth_link = (_, refl, refl, refl)
tool_for_playbook-resolves Playbook.upi_autopay_nudge = (_, refl, refl, refl)
tool_for_playbook-resolves Playbook.negotiation = (_, refl, refl, refl)
tool_for_playbook-resolves Playbook.salary_cycle_sequencer = (_, refl, refl, refl)
tool_for_playbook-resolves Playbook.mandate_refresh = (_, refl, refl, refl)
tool_for_playbook-resolves Playbook.p2p_tracker = (_, refl, refl, refl)

-- The tool put to the gate is a WhatsApp nudge exactly if a nudge was proposed and the nudge cap
-- is not reached, or no voice attempt is left, or voice is not permitted.
pub switched_tool-nudges_iff :
    (policy : Sandbox) (tool : AgentTool) (nudges attempts : ℕ)
    → (switched_tool policy tool nudges attempts ≡ AgentTool.send_whatsapp) ↔ (
        (tool ≡ AgentTool.send_whatsapp)
        × ((whatsapp_nudges_exhausted nudges ≡ false)
            ⊎ (voice_attempts_exhausted attempts ≡ true)
            ⊎ (voice_is_permitted policy ≡ false)))
unfolding switched_tool switches_to_voice
switched_tool-nudges_iff policy tool nudges attempts =
    by_tests tool (whatsapp_nudges_exhausted nudges) (voice_attempts_exhausted attempts)
      (voice_is_permitted policy)
  where
    by_tests :
        (t : AgentTool) (capped spent permitted : Bool)
        → ((if is_send_whatsapp t && capped && not spent && permitted
              then AgentTool.voice_call
              else t)
            ≡ AgentTool.send_whatsapp)
          ↔ ((t ≡ AgentTool.send_whatsapp)
              × ((capped ≡ false) ⊎ (spent ≡ true) ⊎ (permitted ≡ false)))
    by_tests t capped spent permitted = (λ h. ground arith, λ h. ground arith)

-- The bounds of a request.
pub record IsBounded (txn : Txn) (q : ToolRequest) : Type 0 where
  pub amount_within :
      (n : ℕ) → q.request_amount_minor ≡ some n → (1 ≤ n) × (n ≤ max 1 txn.amount_minor)
  pub deadline_within : (n : ℕ) → q.deadline_days ≡ some n → (1 ≤ n) × (n ≤ 90)

-- Whatever the model answers, if its figures are read, an amount put to the gate lies between one
-- paisa and the larger of the bill and one paisa, and a deadline between 1 and 90 days.
pub tool_request-IsBounded :
    (policy : Sandbox) (txn : Txn) (payload : ToolPayload) (discount : Option Number)
    (figures : Figures) (tool : AgentTool) (nudges attempts : ℕ) (clock : Moment) (day : Date)
    → read_figures payload discount txn.amount_minor ≡ ok figures
    → IsBounded txn (tool_request policy payload figures tool nudges attempts clock day)
unfolding tool_request
tool_request-IsBounded policy txn payload discount figures tool nudges attempts clock day h =
    let parts = read_figures-parts payload discount txn.amount_minor figures h in
    record {
      amount_within = λ n e. requested (takes_amount _) n e;
      deadline_within = λ n e. read_deadline-bounds payload.deadline_days n (parts.1 ∙ ap ok e);
    }
  where
    requested :
        (takes : Bool) (n : ℕ)
        → (if takes then figures.request_amount_minor else none) ≡ some n
        → (1 ≤ n) × (n ≤ max 1 txn.amount_minor)
    requested true n e =
        read_amount-bounds payload.partial_amount_inr payload.amount_inr txn.amount_minor n
          ((read_figures-parts payload discount txn.amount_minor figures h).0 ∙ ap ok e)
    requested false n e = ground arith

proposed-some :
    (o : Option AgentTool) (fc : FailureClass)
    → (tool : AgentTool) × (proposed_or_default o fc ≡ some tool)
unfolding proposed_or_default
proposed-some (some tool) fc = (tool, refl)
proposed-some none fc =
    let (tool, found, _, _) = tool_for_playbook-resolves (default_playbook fc) in (tool, found)

-- The call concludes; or it raises, which leaves the database as it was, and then the figures are
-- not readable.
abbrev pub Decides :
    (AgentDecision → Db → Type 0) → Type 0 → Db → Result AgentDecision × Db → Type 0
Decides P readable db (ok d, after) = P d after
Decides P readable db (err e, after) = (after ≡ db) × (¬ readable)

Decides-of :
    (P : AgentDecision → Db → Type 0) (readable : Type 0) (db : Db) (r : Result AgentDecision × Db)
    → Concludes P r
    → Decides P readable db r
Decides-of P readable db (ok d, after) h = h
Decides-of P readable db (err e, after) h = elim h [ ]

gate_figures-Decides :
    (policy sandbox : Sandbox) (txn : Txn) (payload : ToolPayload) (attempts : ℕ) (clock : Moment)
    (day : Date) (tool : AgentTool) (r : Result Figures) (readable : Type 0) (db : Db)
    → (readable → (f : Figures) × (r ≡ ok f))
    → find_txn txn.transaction_id db.transactions ≡ some txn
    → Decides
        (IsCommitted txn txn db)
        readable
        db
        (gate_figures policy sandbox txn payload attempts clock day tool r db)
unfolding gate_figures
gate_figures-Decides policy sandbox txn payload attempts clock day tool (err e) readable db h
      found =
    (refl, λ yes. ground (arith, (h yes).1))
gate_figures-Decides policy sandbox txn payload attempts clock day tool (ok f) readable db h found =
    let nudges = whatsapp_nudge_count db.audits txn.transaction_id none in
    let chosen = switched_tool policy tool nudges attempts in
    let request = tool_request policy payload f tool nudges attempts clock day in
    Decides-of (IsCommitted txn txn db) readable db (gate_tool sandbox txn chosen request db)
      (gate_tool-IsCommitted sandbox txn txn chosen request db found)

gate_proposed-Decides :
    (policy sandbox : Sandbox) (txn : Txn) (payload : ToolPayload) (discount : Option Number)
    (attempts : Option ℕ) (clock : Moment) (day : Date) (o : Option AgentTool) (db : Db)
    {tool : AgentTool}
    → o ≡ some tool
    → find_txn txn.transaction_id db.transactions ≡ some txn
    → Decides
        (IsCommitted txn txn db)
        (IsReadable payload discount)
        db
        (gate_proposed policy sandbox txn payload discount attempts clock day o db)
unfolding gate_proposed
gate_proposed-Decides policy sandbox txn payload discount attempts clock day none db e found =
    ground arith
gate_proposed-Decides policy sandbox txn payload discount attempts clock day (some t) db e found =
    gate_figures-Decides policy sandbox txn payload _ clock day t _ _ db
      (read_figures-ok payload discount txn.amount_minor) found

-- On a case that exists, decide_tool, whatever the model answered, an unknown tool included, leaves
-- the database that its decision describes, or it raises and leaves the database as it was; it
-- raises only if the answer's discount or amount is an integer that no float holds or its deadline
-- is not finite.
pub decide_tool-Decides :
    (policy sandbox : Sandbox) (txn : Txn) (key : ℕ) (payload : ToolPayload)
    (fc : Option FailureClass) (discount : Option Number) (attempts : Option ℕ) (clock : Moment)
    (day : Date) (db : Db)
    → find_txn key db.transactions ≡ some txn
    → Decides
        (IsCommitted txn txn db)
        (IsReadable payload discount)
        db
        (decide_tool policy sandbox key payload fc discount attempts clock day db)
unfolding decide_tool
decide_tool-Decides policy sandbox txn key payload fc discount attempts clock day db found =
    rw (found, decide_tool)
      (gate_proposed-Decides policy sandbox txn payload discount attempts clock day _ db
        (proposed-some payload.tool (or_else fc txn.failure_class)).1
        (subst (λ k. find_txn k db.transactions ≡ some txn)
          (sym (find_txn-key key db.transactions found)) found))
