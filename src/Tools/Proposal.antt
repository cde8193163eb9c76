-- ===== src/Tools/Proposal.antt =====
-- Backend/application/operations/agent_tools.py: `_tool_for_playbook`, `_offered_tools`, and the part
-- of `decide_tool` after the model has answered. The answer itself (Jev, or the prompt through the
-- router) is an argument: `ToolPayload` holds the fields that are read from it, amounts in paise.
use recova.Prelude.{
  ℕ, zero, suc, ◌+◌, ◌/◌, ◌%◌, Bool, true, false, ◌&&◌, not, Option, none, some, List, [], ◌∷◌,
  ◌++◌, ltb, or_else, if◌then◌else◌,
}
use recova.Prelude.Int.{Number}
use recova.Prelude.Text.{Text, codes}
use recova.Prelude.Outcome.{Run, Result, ok, err, value_error}
use recova.Constants.{
  FailureClass, Action, Channel, Playbook, AgentTool, action_value, channel_value, contains,
  same_string,
}
use recova.Dates.{Date, Moment}
use recova.Compliance.{voice_attempts_exhausted, whatsapp_nudges_exhausted, whatsapp_nudge_cap}
use recova.Policy.{Sandbox}
use recova.Playbooks.{playbook_action, default_playbook}
use recova.Database.{Txn, Db, find_txn, voice_attempt_count, whatsapp_nudge_count, same_channel}
use recova.Tools.{AgentDecision, ToolRequest, tool_resolution}
use recova.Tools.Branches.{gate_tool}
use recova.Tools.Figures.{ToolPayload, Figures, read_figures}

-- the order of `_TOOL_RESOLUTION.items()`
abbrev pub all_tools : List AgentTool
all_tools =
    AgentTool.send_whatsapp ∷ AgentTool.voice_call ∷ AgentTool.generate_payment_link
    ∷ AgentTool.generate_qr_code ∷ AgentTool.offer_partial_plan ∷ AgentTool.offer_fee_waiver
    ∷ AgentTool.schedule_retry ∷ AgentTool.handoff_to_human ∷ AgentTool.stop ∷ []

abbrev pub same_action : Option Action → Action → Bool
same_action none a = false
same_action (some b) a = same_string (action_value b) (action_value a)

abbrev pub same_channels : Option Channel → Option Channel → Bool
same_channels none none = true
same_channels (some c) (some d) = same_channel c d
same_channels _ _ = false

-- the loop of `_tool_for_playbook`; running off its end is the `ValueError`
unfoldable pub first_tool : Action → Option Channel → List AgentTool → Option AgentTool
first_tool action channel [] = none
first_tool action channel (tool ∷ rest) =
    let (tool_action, tool_channel, _) = tool_resolution tool in
    if same_action tool_action action && same_channels tool_channel channel
    then some tool
    else first_tool action channel rest

-- `_tool_for_playbook`
unfoldable pub tool_for_playbook : Playbook → Option AgentTool
tool_for_playbook p =
    let (action, channel) = playbook_action p in first_tool action channel all_tools

-- the two tests of the loop of `_offered_tools`
unfoldable pub action_withheld : Sandbox → Option Action → Bool
action_withheld policy none = false
action_withheld policy (some a) = not (contains (action_value a) policy.allowed_actions)

unfoldable pub channel_withheld : Sandbox → Option Channel → Bool
channel_withheld policy none = false
channel_withheld policy (some c) = not (contains (channel_value c) policy.allowed_channels)

-- the loop of `_offered_tools`
unfoldable pub offered_among : Sandbox → List AgentTool → List AgentTool
offered_among policy [] = []
offered_among policy (tool ∷ rest) =
    let (action, channel, _) = tool_resolution tool in
    let offered = offered_among policy rest in
    if action_withheld policy action
    then offered
    else if channel_withheld policy channel
    then offered
    else tool ∷ offered

-- `_offered_tools`
unfoldable pub offered_tools : Sandbox → List AgentTool
offered_tools policy = offered_among policy all_tools

-- `AgentTool(raw_tool)`, and the class default on a tool that is not in the list
unfoldable pub proposed_or_default : Option AgentTool → FailureClass → Option AgentTool
proposed_or_default (some tool) fc = some tool
proposed_or_default none fc = tool_for_playbook (default_playbook fc)

abbrev pub is_send_whatsapp : AgentTool → Bool
is_send_whatsapp AgentTool.send_whatsapp = true
is_send_whatsapp _ = false

abbrev pub voice_is_permitted : Sandbox → Bool
voice_is_permitted policy =
    contains (channel_value Channel.voice) policy.allowed_channels
    && contains (action_value Action.voice_call) policy.allowed_actions

-- the test of the switch to a voice call
unfoldable pub switches_to_voice : Sandbox → AgentTool → ℕ → ℕ → Bool
switches_to_voice policy tool nudges attempts =
    is_send_whatsapp tool
    && whatsapp_nudges_exhausted nudges
    && not (voice_attempts_exhausted attempts)
    && voice_is_permitted policy

-- the tool that is put to the gate
unfoldable pub switched_tool : Sandbox → AgentTool → ℕ → ℕ → AgentTool
switched_tool policy tool nudges attempts =
    if switches_to_voice policy tool nudges attempts then AgentTool.voice_call else tool

-- `f"{n}"`, with fuel for the digits: `n` itself is more than enough
unfoldable pub decimal_digits : ℕ → ℕ → Text
decimal_digits zero n = (n % 10 + 48) ∷ []
decimal_digits (suc fuel) n =
    let rest = decimal_digits fuel (n / 10) in
    if ltb n 10 then (n + 48) ∷ [] else rest ++ (n % 10 + 48) ∷ []

-- the reason that the switch writes
unfoldable pub switch_reason : ℕ → Text → Text
switch_reason nudges model_reason =
    codes "Auto-escalated to a voice call: "
    ++ decimal_digits nudges nudges
    ++ codes " WhatsApp nudges already sent without payment (cap "
    ++ decimal_digits whatsapp_nudge_cap whatsapp_nudge_cap
    ++ codes ")."
    ++ elim model_reason [
      | [] ↦ []
      | c ∷ t ↦ codes " Model rationale for continued contact: " ++ c ∷ t
    ]

-- `_PARTIAL_ALLOWED_TOOLS`
abbrev pub takes_amount : AgentTool → Bool
takes_amount AgentTool.offer_partial_plan = true
takes_amount AgentTool.generate_payment_link = true
takes_amount AgentTool.generate_qr_code = true
takes_amount _ = false

-- the arguments of the call of `gate_tool`
unfoldable pub tool_request :
    Sandbox → ToolPayload → Figures → AgentTool → ℕ → ℕ → Moment → Date → ToolRequest
tool_request policy payload figures proposed nudges attempts clock today =
    let tool = switched_tool policy proposed nudges attempts in
    record {
      model_reason =
          if switches_to_voice policy proposed nudges attempts
          then switch_reason nudges payload.reason
          else payload.reason;
      message = payload.message;
      discount_pct = figures.discount_pct;
      request_amount_minor = if takes_amount tool then figures.request_amount_minor else none;
      deadline_days = figures.deadline_days;
      voice_attempts = attempts;
      clock = clock;
      today = today;
    }

-- the call of `gate_tool`, once the figures are read or a conversion has raised
unfoldable pub gate_figures :
    Sandbox
    → Sandbox
    → Txn
    → ToolPayload
    → ℕ
    → Moment
    → Date
    → AgentTool
    → Result Figures
    → Run Db AgentDecision
gate_figures policy sandbox txn payload attempts clock today tool (err e) db = (err e, db)
gate_figures policy sandbox txn payload attempts clock today tool (ok figures) db =
    let nudges = whatsapp_nudge_count db.audits txn.transaction_id none in
    gate_tool sandbox txn (switched_tool policy tool nudges attempts)
      (tool_request policy payload figures tool nudges attempts clock today) db

-- the call of `gate_tool`, on the tool that is proposed
unfoldable pub gate_proposed :
    Sandbox
    → Sandbox
    → Txn
    → ToolPayload
    → Option Number
    → Option ℕ
    → Moment
    → Date
    → Option AgentTool
    → Run Db AgentDecision
gate_proposed policy sandbox txn payload route_discount voice_attempts clock today none db =
    (err value_error, db)
gate_proposed policy sandbox txn payload route_discount voice_attempts clock today (some tool) db =
    gate_figures policy sandbox txn payload
      (voice_attempt_count db.audits txn.transaction_id voice_attempts) clock today tool
      (read_figures payload route_discount txn.amount_minor) db

-- `decide_tool`, on the model's answer
unfoldable pub decide_tool :
    Sandbox
    → Sandbox
    → ℕ
    → ToolPayload
    → Option FailureClass
    → Option Number
    → Option ℕ
    → Moment
    → Date
    → Run Db AgentDecision
decide_tool policy sandbox key payload fc route_discount voice_attempts clock today db =
    elim (find_txn key db.transactions) [
      | none ↦ (err value_error, db)
      | some txn ↦
          gate_proposed policy sandbox txn payload route_discount voice_attempts clock today
            (proposed_or_default payload.tool (or_else fc txn.failure_class)) db
    ]
