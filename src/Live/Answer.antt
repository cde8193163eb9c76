-- ===== src/Live/Answer.antt =====
-- live_session.py: `_maybe_add_reminder` and `reply`. The drafted texts and the model's answers are
-- arguments.
use recova.Prelude.{Bool, true, false, ◌||◌, Option, none, some, [], ◌∷◌, if◌then◌else◌}
use recova.Prelude.Text.{Text}
use recova.Prelude.Outcome.{Run, pure, ◌>>=◌, ◌>>◌}
use recova.Constants.{LifecycleState, NodeName, Outcome}
use recova.Dates.{Date, add_days, same_date}
use recova.Compliance.{Disposition}
use recova.Reply.Understanding.{ReplyReading}
use recova.Database.{Txn, Entry, record_audit}
use recova.Tools.{AgentDecision}
use recova.Tools.Branches.{is_partial_plan}
use recova.Tools.Proposal.{decide_tool}
use recova.Thread.{Direction, Sender, Body}
use recova.Live.{Stage, Theatre, emit, on_db, current_txn, change_case, post, set_last_decision}
use recova.Live.Events.{LiveEvent}
use recova.Live.Turns.{emit_bounds, is_partial_offer, plan_days}
use recova.Live.Decisions.{apply_agent_decision}
use recova.Live.Dialogue.{session_audit, start, Hearing, hear, emit_judged, screened_stop}

-- the date of the reminder, if one is due
abbrev pub reminder_date : Theatre → Option Date → AgentDecision → Option Date
reminder_date θ p2p d =
    if is_partial_offer d.action || is_partial_plan d.tool
    then some (add_days (plan_days θ d) θ.clock.date)
    else p2p

abbrev pub books_date : Option Date → Date → Bool
books_date none at = false
books_date (some d) at = same_date d at

abbrev pub reminded : Date → Txn → Txn
reminded at t = record t {
  metadata = record (t.metadata) { calendar_reminder = some at; next_debit_date = some at };
}

-- the reminder that is written
unfoldable pub book_reminder : Theatre → Date → Run Stage (Unit {0})
book_reminder θ at = do
  on_db (change_case θ (reminded at))
  on_db (
      record_audit (
        session_audit θ NodeName.ingest
          (Entry.calendar_reminder at ∷ Entry.live_session_id θ.session_id ∷ []) Outcome.success))
  emit (LiveEvent.reminder at)

abbrev pub add_reminder : Theatre → Option Date → Run Stage (Unit {0})
add_reminder θ none = pure tt
add_reminder θ (some at) = do
  txn ← current_txn θ
  if books_date txn.metadata.calendar_reminder at then pure tt else book_reminder θ at

-- `_maybe_add_reminder`
unfoldable pub maybe_add_reminder : Theatre → ReplyReading → AgentDecision → Run Stage (Unit {0})
maybe_add_reminder θ reading d = add_reminder θ (reminder_date θ reading.p2p_date d)

-- the last lines of a turn: the gauge and the state, unless the session is terminal
unfoldable pub report_row : Theatre → Txn → Bool → Run Stage LifecycleState
report_row θ txn true = pure txn.current_state
report_row θ txn false = do
  emit_bounds θ none
  emit (LiveEvent.status txn.current_state)
  pure txn.current_state

unfoldable pub report_case : Theatre → Txn → Run Stage LifecycleState
report_case θ txn stage = report_row θ txn stage.session.terminal stage

unfoldable pub report : Theatre → Run Stage LifecycleState
report θ = do txn ← current_txn θ; report_case θ txn

unfoldable pub final_state : Theatre → Run Stage LifecycleState
final_state θ = do txn ← current_txn θ; pure txn.current_state

-- the part of `reply` after the screen let the customer's message pass
unfoldable pub converse : Theatre → Hearing → ReplyReading → Run Stage LifecycleState
converse θ h reading = do
  txn ← current_txn θ
  emit (LiveEvent.typing true)
  emit LiveEvent.route
  d ←
      on_db
        (decide_tool θ.policy θ.policy θ.transaction_id h.payload none none none θ.clock θ.today)
  set_last_decision d
  emit LiveEvent.route
  emit (LiveEvent.decision d)
  _ ← apply_agent_decision θ d h.draft none
  maybe_add_reminder θ reading d
  report θ

abbrev pub act_on_reading :
    Theatre → Hearing → ReplyReading → Disposition → Run Stage LifecycleState
act_on_reading θ h reading Disposition.continue = converse θ h reading
act_on_reading θ h reading _ = do screened_stop θ reading.verdict; final_state θ

-- the part of `reply` after its guard
unfoldable pub respond : Theatre → Hearing → Text → Run Stage LifecycleState
respond θ h text = do
  post θ Direction.inbound Sender.customer (Body.words text) none
  reading ← hear θ h text
  emit_judged reading.source
  act_on_reading θ h reading reading.verdict.disposition

unfoldable pub respond_if_open : Theatre → Hearing → Text → Run Stage LifecycleState
respond_if_open θ h text stage =
    if stage.session.closed || stage.session.terminal
    then final_state θ stage
    else respond θ h text stage

unfoldable pub reply : Theatre → Hearing → Text → Run Stage LifecycleState
reply θ h text = do start θ h.opening_draft; respond_if_open θ h text
