-- ===== src/Live/Histories.antt =====
-- The histories of a session: any requests, in any order, each under its own answers of the outside.
use recova.Prelude.{ℕ, ◌≡◌, subst, Option}
use recova.Prelude.Text.{Text}
use recova.Constants.{AgentTool}
use recova.Artifacts.{Artifact}
use recova.Artifacts.Payment.{Poll}
use recova.Thread.Order.{IsNumbered}
use recova.Live.{Stage, Theatre, Speaker}
use recova.Live.Payments.{reconcile_pending, check_latest_payment_status, simulate_payment}
use recova.Live.Dialogue.{Hearing, start}
use recova.Live.Answer.{reply}
use recova.Live.Cycle.{ToolArgs, run_agent_tool}
use recova.Live.Voice.{ingest_turn, close}
use recova.Live.Evolution.{Evolves, Evolves-IsPreorder}
use recova.Live.Announced.{
  Tends-reconcile_pending, Tends-check_latest_payment_status, Tends-simulate_payment,
}
use recova.Live.Replies.{
  Tends-start, Tends-reply, Tends-run_agent_tool, Tends-ingest_turn, Tends-close,
}

-- A request of the session of a case, whether it returns or raises.
pub data Request (θ : Theatre) : Stage → Stage → Type 0 where
  starts : (draft : Text) (s : Stage) → Request θ s (start θ draft s).1
  replies : (h : Hearing) (text : Text) (s : Stage) → Request θ s (reply θ h text s).1
  names_tool :
      (o : Option AgentTool) (args : ToolArgs) (s : Stage)
      → Request θ s (run_agent_tool θ o args s).1
  polls : (poll : Artifact → Poll) (s : Stage) → Request θ s (reconcile_pending θ poll s).1
  checks :
      (poll : Artifact → Poll) (s : Stage) → Request θ s (check_latest_payment_status θ poll s).1
  simulates : (id : ℕ) (s : Stage) → Request θ s (simulate_payment θ id s).1
  speaks :
      (o : Option Speaker) (text : Text) (offset : ℕ) (s : Stage)
      → Request θ s (ingest_turn θ o text offset s).1
  closes : (s : Stage) → Request θ s (close s).1

-- The stages that requests on one case lead to.
pub data History (key : ℕ) (first : Stage) : Stage → Type 0 where
  opens : History key first first
  continues :
      (θ : Theatre) (a b : Stage)
      → θ.transaction_id ≡ key
      → History key first a
      → Request θ a b
      → History key first b

request-Evolves : (θ : Theatre) (a b : Stage) → Request θ a b → Evolves θ.transaction_id a b
request-Evolves θ _ _ (starts draft s) = (Tends-start θ draft).at s
request-Evolves θ _ _ (replies h text s) = (Tends-reply θ h text).at s
request-Evolves θ _ _ (names_tool o args s) = (Tends-run_agent_tool θ o args).at s
request-Evolves θ _ _ (polls poll s) = (Tends-reconcile_pending θ poll).at s
request-Evolves θ _ _ (checks poll s) = (Tends-check_latest_payment_status θ poll).at s
request-Evolves θ _ _ (simulates id s) = (Tends-simulate_payment θ id).at s
request-Evolves θ _ _ (speaks o text offset s) = (Tends-ingest_turn θ o text offset).at s
request-Evolves θ _ _ (closes s) = (Tends-close θ).at s

-- Over any history of requests on one case, the audit trail, the tickets and the calls only grow, no
-- row of another case changes, a terminal or closed session stays so, and a session that is closed
-- puts no event on its queue any more.
pub history-Evolves :
    (key : ℕ) (first last : Stage) → History key first last → Evolves key first last
history-Evolves key first _ opens = (Evolves-IsPreorder key).stays first
history-Evolves key first _ (continues θ a b own past now) =
    (Evolves-IsPreorder key).chains first a b (history-Evolves key first a past)
      (subst (λ k. Evolves k a b) own (request-Evolves θ a b now))

-- If every case numbers its messages without a gap, it still does after any history of requests.
pub history-IsNumbered :
    (key : ℕ) (first last : Stage)
    → History key first last
    → IsNumbered first.store.messages
    → IsNumbered last.store.messages
history-IsNumbered key first last past h = (history-Evolves key first last past).store.numbered h
