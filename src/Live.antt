-- ===== src/Live.antt =====
-- Backend/application/operations/live_session.py: the interactive recovery session of one case. The
-- children have its gauge (`_bounds`), its turns and its life cycle; this file has its state.
-- The queue is a list; the event loop, the polling thread and the tasks are left out. What the
-- outside answers to one request (clock, policy table, providers, model, settings) is a `Theatre`.
pub mod Events
pub mod Gauge
pub mod Turns
pub mod Decisions
pub mod Payments
pub mod Dialogue
pub mod Answer
pub mod Cycle
pub mod Voice
pub mod Evolution
pub mod Tables
pub mod Requests
pub mod Announced
pub mod Replies
pub mod Histories
pub mod Mute
pub mod Rows
pub mod Stops
pub mod Quiet
pub mod Seeds
use recova.Prelude.{
  ℕ, suc, Bool, true, false, Option, none, some, List, [], ◌∷◌, ◌++◌, if◌then◌else◌,
}
use recova.Prelude.Text.{Text}
use recova.Prelude.Outcome.{Run, ok, err, value_error, pure, raise, ◌>>=◌, ◌>>◌}
use recova.Constants.{ArtifactStatus}
use recova.Dates.{Date, Moment}
use recova.Policy.{Sandbox}
use recova.Database.{Txn, Db, find_txn, modify_txn}
use recova.Tools.{AgentDecision}
use recova.Artifacts.{Artifact, Store, Providers}
use recova.Thread.{ThreadRow, Direction, Sender, Body, new_message, add_message}
use recova.Live.Events.{LiveEvent}

-- `CallStatus` and `CallSpeaker`
pub data CallStatus : Type 0 where
  ringing in_progress completed no_answer : CallStatus

pub data Speaker : Type 0 where
  agent customer : Speaker

-- `CallSession`
pub record CallRow : Type 0 where
  pub id : ℕ
  pub transaction_id : ℕ
  pub status : CallStatus
  pub duration_sec : ℕ

-- `CallTurn`
pub record TurnRow : Type 0 where
  pub call_session_id : ℕ
  pub speaker : Speaker
  pub text : Text
  pub seq : ℕ
  pub at_offset_sec : ℕ

-- The fields of `LiveSession` that change. An end mark of the queue is `none`.
pub record Session : Type 0 where
  pub queue : List (Option LiveEvent)
  pub started : Bool
  pub closed : Bool
  pub terminal : Bool
  pub last_decision : Option AgentDecision
  pub call_session_id : Option ℕ

-- The database and the session.
pub record Stage : Type 0 where
  pub store : Store
  pub calls : List CallRow
  pub turns : List TurnRow
  pub next_call : ℕ
  pub session : Session

-- The identity of the session, and what the outside answers while one request runs. `fit_link`
-- puts an artifact's address into a drafted text.
pub record Theatre : Type 0 where
  pub session_id : ℕ
  pub transaction_id : ℕ
  pub clock : Moment
  pub today : Date
  pub policy : Sandbox
  pub providers : Providers
  pub partial_plan_default_days : ℕ
  pub demo_deadline : Option Moment
  pub fit_link : Artifact → Text → Text

-- `emit`
unfoldable pub emit : LiveEvent → Run Stage (Unit {0})
emit event stage =
    let s = stage.session in
    (
      ok tt,
      if s.closed
          then stage
          else record stage { session = record s { queue = s.queue ++ some event ∷ [] } },
    )

-- `_signal_end`
unfoldable pub signal_end : Run Stage (Unit {0})
signal_end stage =
    let s = stage.session in
    (ok tt, record stage { session = record s { queue = s.queue ++ none ∷ [] } })

-- A call on the database, and one on the payment tables, within a session.
unfoldable pub on_db {ℓ} : {A : Type ℓ} → Run Db A → Run Stage A
on_db m stage =
    let (r, db) = m stage.store.db in (r, record stage { store = record (stage.store) { db = db } })

unfoldable pub on_store {ℓ} : {A : Type ℓ} → Run Store A → Run Stage A
on_store m stage = let (r, store) = m stage.store in (r, record stage { store = store })

-- `_txn`
unfoldable pub current_txn : Theatre → Run Stage Txn
current_txn θ stage = elim (find_txn θ.transaction_id stage.store.db.transactions) [
  | none ↦ (err value_error, stage)
  | some t ↦ (ok t, stage)
]

-- A change of the case's row, committed.
unfoldable pub change_case : Theatre → (Txn → Txn) → Run Db (Unit {0})
change_case θ f db =
    (ok tt, record db { transactions = modify_txn θ.transaction_id f db.transactions })

abbrev pub shown : Option Artifact → Option (ℕ × ArtifactStatus)
shown none = none
shown (some a) = some (a.id, a.status)

-- `_add_message`, with the row that it returns
unfoldable pub write_message :
    Theatre → Direction → Sender → Body → Option Artifact → Run Store ThreadRow
write_message θ direction sender body artifact store =
    let row = new_message θ.transaction_id direction sender body (shown artifact) store.messages in
    (
      ok row,
      record store {
        messages =
            add_message θ.transaction_id direction sender body (shown artifact) store.messages;
      },
    )

-- `_add_message`, then the `message` event of its row
unfoldable pub post : Theatre → Direction → Sender → Body → Option Artifact → Run Stage (Unit {0})
post θ direction sender body artifact = do
  row ← on_store (write_message θ direction sender body artifact)
  emit (LiveEvent.message row)

-- `self.terminal = True`
unfoldable pub set_terminal : Run Stage (Unit {0})
set_terminal stage = (ok tt, record stage { session = record (stage.session) { terminal = true } })

-- `self.last_decision = decision`
unfoldable pub set_last_decision : AgentDecision → Run Stage (Unit {0})
set_last_decision decision stage =
    (ok tt, record stage { session = record (stage.session) { last_decision = some decision } })
