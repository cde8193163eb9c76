-- ===== src/Live/Decisions.antt =====
-- live_session.py: `_finish` and `_apply_agent_decision`.
use recova.Prelude.{Bool, true, false, ◌&&◌, not, Option, none, some, [], ◌∷◌, if◌then◌else◌}
use recova.Prelude.Text.{Text}
use recova.Prelude.Outcome.{Run, pure, ◌>>=◌, ◌>>◌}
use recova.Constants.{LifecycleState, Channel, StoppingRule, Playbook, AgentTool}
use recova.Database.{Txn}
use recova.Tools.{AgentDecision}
use recova.Artifacts.{Artifact}
use recova.Thread.{Sender}
use recova.Live.{Stage, Theatre, emit, signal_end, on_db, current_txn, change_case, set_terminal}
use recova.Live.Events.{LiveEvent}
use recova.Live.Turns.{post_body, emit_bounds, contact}

abbrev pub finished : LifecycleState → Txn → Txn
finished state t = record t {
  current_state = state;
  metadata = record (t.metadata) { unworked = some false };
}

-- `_finish`
unfoldable pub finish : Theatre → LifecycleState → Option StoppingRule → Run Stage (Unit {0})
finish θ state rule = do
  txn ← current_txn θ
  on_db (change_case θ (finished state))
  emit_bounds θ rule
  emit (LiveEvent.status state)
  emit (LiveEvent.complete state)
  set_terminal
  signal_end

abbrev pub is_closing_tool : AgentTool → Bool
is_closing_tool AgentTool.stop = true
is_closing_tool AgentTool.handoff_to_human = true
is_closing_tool _ = false

abbrev pub is_waiting : Option LifecycleState → Bool
is_waiting (some LifecycleState.waiting) = true
is_waiting _ = false

abbrev pub is_blank : Text → Bool
is_blank [] = true
is_blank (c ∷ t) = false

-- the message of a decision that contacts nobody
unfoldable pub conclude_message : Theatre → AgentDecision → Text → Run Stage (Unit {0})
conclude_message θ d body =
    if not (is_blank body) && d.allowed && is_closing_tool d.tool
    then post_body θ Sender.system none body
    else if not (is_blank body) && is_waiting d.terminal_state
    then post_body θ Sender.agent none body
    else emit (LiveEvent.typing false)

abbrev pub conclude_state :
    Theatre → Option LifecycleState → Option StoppingRule → Run Stage (Unit {0})
conclude_state θ (some LifecycleState.escalated) rule = finish θ LifecycleState.escalated rule
conclude_state θ (some LifecycleState.cancelled) rule = finish θ LifecycleState.cancelled rule
conclude_state θ (some LifecycleState.waiting) rule = do
  emit_bounds θ none
  emit (LiveEvent.status LifecycleState.waiting)
conclude_state θ _ rule = pure tt

-- `_apply_agent_decision` on every other decision
unfoldable pub conclude : Theatre → AgentDecision → Text → Run Stage (Option Artifact)
conclude θ d body = do
  conclude_message θ d body
  conclude_state θ d.terminal_state d.stopping_rule
  pure none

abbrev pub contact_or_conclude :
    Theatre
    → AgentDecision
    → Text
    → Option Playbook
    → Txn
    → Bool
    → Option Channel
    → Run Stage (Option Artifact)
contact_or_conclude θ d body playbook txn true (some c) = contact θ d c body playbook txn
contact_or_conclude θ d body playbook txn _ _ = conclude θ d body

-- `_apply_agent_decision`
unfoldable pub apply_agent_decision :
    Theatre → AgentDecision → Text → Option Playbook → Run Stage (Option Artifact)
apply_agent_decision θ d body playbook = do
  txn ← current_txn θ
  contact_or_conclude θ d body playbook txn d.allowed d.channel
