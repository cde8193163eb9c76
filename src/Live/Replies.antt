-- ===== src/Live/Replies.antt =====
-- The replies and the named tools of a session evolve its own case.
use recova.Prelude.{
  ℕ, ◌≡◌, refl, subst, Bool, true, false, Option, none, some, [], ◌∷◌, not, ◌&&◌, ◌||◌, arith,
  if◌then◌else◌,
}
use recova.Prelude.Text.{Text}
use recova.Prelude.Outcome.{Result, ok, pure, ◌>>=◌}
use recova.Prelude.Steps.{Respects-bind, Respects-test}
use recova.Constants.{FailureClass, AgentTool, StoppingRule}
use recova.Dates.{Date}
use recova.Compliance.{Disposition, MessageVerdict}
use recova.Reply.Understanding.{ReplyReading, Source}
use recova.Database.{Txn}
use recova.Database.Growth.{Grown}
use recova.Tools.{AgentDecision}
use recova.Tools.Growth.{Grown-gate_tool, Grown-decide_tool}
use recova.Live.{Stage, Theatre, CallStatus, Speaker, on_db}
use recova.Live.Dialogue.{
  Hearing, open_case, opening, set_started, start, hear, emit_judged, enqueue_if_escalated, rule_of,
  screened_stop,
}
use recova.Live.Answer.{
  reminded, book_reminder, add_reminder, maybe_add_reminder, report_row, report_case, report,
  final_state, converse, act_on_reading, respond, respond_if_open, reply,
}
use recova.Live.Turns.{add_call}
use recova.Live.Cycle.{ToolArgs, gate_named, follow_tool, run_tool, run_agent_tool}
use recova.Live.Voice.{current_call, add_turn, take_turn, ingest_turn, close}
use recova.Live.Evolution.{Evolves, Evolves-IsPreorder, Evolves-on_db, aside, unchanged_store}
use recova.Live.Tables.{Evolves-add_call}
use recova.Live.Requests.{
  Tends, Tends-finish, Tends-emit_bounds, Tends-current, Tends-with_txn, Tends-post, Tends-apply,
  with_state-transaction_id, stage_rules,
}

module _ (θ : Theatre) where
  Tends-report_row : (t : Txn) (b : Bool) → Tends θ (report_row θ t b)
  unfolding report_row
  Tends-report_row t true = search stage_rules
  Tends-report_row t false = search (stage_rules, Tends-emit_bounds)

  Tends-report_case : (t : Txn) → Tends θ (report_case θ t)
  unfolding report_case
  Tends-report_case t = record {
    at = λ stage. (Tends-report_row t stage.session.terminal).at stage;
  }

  Tends-report : Tends θ (report θ)
  unfolding report
  Tends-report = search (stage_rules, Tends-current, Tends-report_case)

  pub Tends-final_state : Tends θ (final_state θ)
  unfolding final_state
  Tends-final_state = search (stage_rules, Tends-current)

  Tends-open_case : (fc : FailureClass) → Tends θ (open_case θ fc)
  unfolding open_case
  Tends-open_case fc = search (stage_rules, with_state-transaction_id) depth 20

  Tends-opening : (draft : Text) → Tends θ (opening θ draft)
  unfolding opening
  Tends-opening draft =
      search (stage_rules, Tends-current, Tends-open_case, Grown-decide_tool, Tends-apply) depth 20

  Tends-set_started : Tends θ set_started
  unfolding set_started
  Tends-set_started = record { at = λ stage. aside θ.transaction_id stage _ refl refl refl refl }

  pub Tends-start : (draft : Text) → Tends θ (start θ draft)
  unfolding start
  Tends-start draft =
      Respects-test (λ stage. not stage.session.started && not stage.session.closed) _ (pure tt)
        (Respects-bind (Evolves-IsPreorder θ.transaction_id) _ _ Tends-set_started
          λ _. Tends-opening draft)
        (search stage_rules)

  Tends-hear : (h : Hearing) (text : Text) → Tends θ (hear θ h text)
  unfolding hear
  Tends-hear h text = record { at = λ stage. (Evolves-IsPreorder θ.transaction_id).stays stage }

  Tends-emit_judged : (source : Source) → Tends θ (emit_judged source)
  Tends-emit_judged Source.jev = search stage_rules
  Tends-emit_judged Source.keyword = search stage_rules
  Tends-emit_judged Source.empty = search stage_rules

  Tends-enqueue : (v : MessageVerdict) (d : Disposition) → Tends θ (enqueue_if_escalated θ v d)
  Tends-enqueue v Disposition.escalate = search stage_rules
  Tends-enqueue v Disposition.terminate = search stage_rules
  Tends-enqueue v Disposition.continue = search stage_rules

  Tends-rule_of : (o : Option StoppingRule) → Tends θ (rule_of o)
  Tends-rule_of none = search stage_rules
  Tends-rule_of (some r) = search stage_rules

  Tends-screened_stop : (v : MessageVerdict) → Tends θ (screened_stop θ v)
  unfolding screened_stop
  Tends-screened_stop v =
      search
        (
          stage_rules, Tends-current, Tends-enqueue, Tends-rule_of, Tends-post, Tends-finish,
          with_state-transaction_id,
        )
        depth 20

  reminded-transaction_id :
      (at : Date) (t : Txn) → (reminded at t).transaction_id ≡ t.transaction_id
  reminded-transaction_id at t = refl

  Tends-book_reminder : (at : Date) → Tends θ (book_reminder θ at)
  unfolding book_reminder
  Tends-book_reminder at = search (stage_rules, reminded-transaction_id) depth 12

  Tends-add_reminder : (o : Option Date) → Tends θ (add_reminder θ o)
  Tends-add_reminder none = search stage_rules
  Tends-add_reminder (some at) = search (stage_rules, Tends-current, Tends-book_reminder)

  Tends-maybe_add_reminder :
      (reading : ReplyReading) (d : AgentDecision) → Tends θ (maybe_add_reminder θ reading d)
  unfolding maybe_add_reminder
  Tends-maybe_add_reminder reading d = Tends-add_reminder _

  Tends-converse : (h : Hearing) (reading : ReplyReading) → Tends θ (converse θ h reading)
  unfolding converse
  Tends-converse h reading =
      search
        (
          stage_rules, Tends-current, Grown-decide_tool, Tends-apply, Tends-maybe_add_reminder,
          Tends-report,
        )
        depth 25

  Tends-act_on_reading :
      (h : Hearing) (reading : ReplyReading) (d : Disposition)
      → Tends θ (act_on_reading θ h reading d)
  Tends-act_on_reading h reading Disposition.continue = Tends-converse h reading
  Tends-act_on_reading h reading Disposition.terminate =
      search (stage_rules, Tends-screened_stop, Tends-final_state)
  Tends-act_on_reading h reading Disposition.escalate =
      search (stage_rules, Tends-screened_stop, Tends-final_state)

  Tends-respond : (h : Hearing) (text : Text) → Tends θ (respond θ h text)
  unfolding respond
  Tends-respond h text =
      search (stage_rules, Tends-post, Tends-hear, Tends-emit_judged, Tends-act_on_reading) depth 12

  Tends-respond_if_open : (h : Hearing) (text : Text) → Tends θ (respond_if_open θ h text)
  unfolding respond_if_open
  Tends-respond_if_open h text =
      Respects-test (λ stage. stage.session.closed || stage.session.terminal) _ _ Tends-final_state
        (Tends-respond h text)

  pub Tends-reply : (h : Hearing) (text : Text) → Tends θ (reply θ h text)
  unfolding reply
  Tends-reply h text = search (stage_rules, Tends-start, Tends-respond_if_open)

  Tends-gate_named :
      (tool : AgentTool) (args : ToolArgs) (t : Txn)
      → t.transaction_id ≡ θ.transaction_id
      → Tends θ (on_db (gate_named θ tool args t))
  Tends-gate_named tool args t keyed = Evolves-on_db θ.transaction_id _ (
      subst (λ k. Grown k (gate_named θ tool args t)) keyed
        (record { at = λ db. (Grown-gate_tool θ.policy t tool _).at db }))

  Tends-follow_tool : (d : AgentDecision) → Tends θ (follow_tool θ d)
  unfolding follow_tool
  Tends-follow_tool d = search (stage_rules, Tends-apply, Tends-report) depth 12

  Tends-run_tool : (tool : AgentTool) (args : ToolArgs) → Tends θ (run_tool θ tool args)
  unfolding run_tool
  Tends-run_tool tool args =
      Tends-with_txn θ (λ t. on_db (gate_named θ tool args t) >>= follow_tool θ)
        λ t keyed.
          Respects-bind (Evolves-IsPreorder θ.transaction_id) _ _
            (Tends-gate_named tool args t keyed) Tends-follow_tool

  pub Tends-run_agent_tool :
      (o : Option AgentTool) (args : ToolArgs) → Tends θ (run_agent_tool θ o args)
  unfolding run_agent_tool
  Tends-run_agent_tool none args = search stage_rules
  Tends-run_agent_tool (some tool) args = Tends-run_tool tool args

  Tends-current_call : Tends θ (current_call θ)
  unfolding current_call
  Tends-current_call = record { at = λ stage. by_call stage stage.session.call_session_id }
    where
      by_call :
          (stage : Stage) (o : Option ℕ)
          → Evolves θ.transaction_id stage
              (elim o as (λ _. Result ℕ × Stage) [
                | none ↦ add_call θ CallStatus.in_progress stage
                | some id ↦ (ok id, stage)
              ]).1
      by_call stage none = (Evolves-add_call θ CallStatus.in_progress).at stage
      by_call stage (some id) = (Evolves-IsPreorder θ.transaction_id).stays stage

  Tends-add_turn :
      (id : ℕ) (speaker : Speaker) (text : Text) (offset : ℕ)
      → Tends θ (add_turn id speaker text offset)
  unfolding add_turn
  Tends-add_turn id speaker text offset = record {
    at = λ stage. aside θ.transaction_id stage _ refl refl refl refl;
  }

  Tends-take_turn :
      (o : Option Speaker) (text : Text) (offset id : ℕ) → Tends θ (take_turn o text offset id)
  Tends-take_turn none text offset id = search stage_rules
  Tends-take_turn (some speaker) text offset id = search (stage_rules, Tends-add_turn)

  pub Tends-ingest_turn :
      (o : Option Speaker) (text : Text) (offset : ℕ) → Tends θ (ingest_turn θ o text offset)
  unfolding ingest_turn
  Tends-ingest_turn o text offset = search (stage_rules, Tends-current_call, Tends-take_turn)

  pub Tends-close : Tends θ close
  unfolding close
  Tends-close = record { at = λ stage. by_closed stage stage.session.closed refl }
    where
      by_closed :
          (stage : Stage) (b : Bool)
          → stage.session.closed ≡ b
          → Evolves θ.transaction_id stage
              (if◌then◌else◌ {A = Result (Unit {0}) × Stage} b
                (ok tt, stage)
                (
                  ok tt,
                  record stage {
                    session = record (stage.session) { closed = true; queue = none ∷ [] };
                  },
                )).1
      by_closed stage true shut = (Evolves-IsPreorder θ.transaction_id).stays stage
      by_closed stage false live = record {
        store = unchanged_store θ.transaction_id stage.store;
        stays_terminal = λ t. t;
        stays_closed = λ t. refl;
        hushed = λ t. ground arith;
      }
