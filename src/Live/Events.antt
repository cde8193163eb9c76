-- ===== src/Live/Events.antt =====
-- The events that a live session puts on its queue. The routing, judgment and revenue figures that
-- some of them carry are left out.
use recova.Prelude.{ℕ, Bool, Option, List, String}
use recova.Constants.{LifecycleState, Channel, Playbook, StoppingRule}
use recova.Dates.{Date, Moment}
use recova.Tools.{AgentDecision}
use recova.Artifacts.{Artifact}
use recova.Thread.{ThreadRow}

-- The phases of a `step` event.
pub data Phase : Type 0 where
  flagged escalated stopped voice_turn : Phase

-- What `_bounds` returns; the three counts are those before they are capped for display.
pub record Bounds : Type 0 where
  pub retries : ℕ
  pub voice : ℕ
  pub total_dispatches : ℕ
  pub channels_used : List String
  pub channels_remaining : List String
  pub armed_rule : Option StoppingRule
  pub fired_rule : Option StoppingRule
  pub next_action_at : Option Moment
  pub in_quiet_hours : Bool
  pub closed : Bool

pub data LiveEvent : Type 0 where
  start : LiveEvent
  step : Phase → LiveEvent
  diagnosis : Playbook → LiveEvent
  typing : Bool → LiveEvent
  route judgment : LiveEvent
  decision : AgentDecision → LiveEvent
  dispatch : Channel → LiveEvent
  artifact : Artifact → LiveEvent
  artifact_closed : ℕ → LiveEvent
  message : ThreadRow → LiveEvent
  call_offer : ℕ → Bounds → LiveEvent
  bounds : Bounds → LiveEvent
  status complete : LifecycleState → LiveEvent
  reminder : Date → LiveEvent
