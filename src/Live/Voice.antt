-- ===== src/Live/Voice.antt =====
-- live_session.py: `call_web`, `ingest_turn` and `close`.
use recova.Prelude.{
  ℕ, Bool, true, false, ◌&&◌, Option, none, some, List, [], ◌∷◌, ◌++◌, ltb, ◌==◌, count_of,
  if◌then◌else◌,
}
use recova.Prelude.Text.{Text}
use recova.Prelude.Outcome.{Run, ok, err, pure, raise, value_error, ◌>>=◌, ◌>>◌}
use recova.Constants.{AgentTool}
use recova.Tools.{AgentDecision}
use recova.Live.{Stage, Theatre, CallRow, CallStatus, TurnRow, Speaker, emit, current_txn}
use recova.Live.Events.{LiveEvent, Bounds, Phase}
use recova.Live.Gauge.{bounds_of}
use recova.Live.Turns.{add_call}

abbrev pub is_voice_call : AgentTool → Bool
is_voice_call AgentTool.voice_call = true
is_voice_call _ = false

-- the guard of `call_web`
abbrev pub may_call : Option AgentDecision → Bool
may_call none = false
may_call (some d) = is_voice_call d.tool && d.allowed

-- `call_web`, with the gauge for the assistant and the call's id
unfoldable pub call_web : Theatre → Run Stage (Bounds × Option ℕ)
call_web θ stage =
    if may_call stage.session.last_decision
    then (current_txn θ >>= λ txn. pure (
      bounds_of θ.policy stage.store.db.audits txn none θ.clock,
      stage.session.call_session_id,
    ))
        stage
    else (err value_error, stage)

-- the call of the session, or a new one
unfoldable pub current_call : Theatre → Run Stage ℕ
current_call θ stage = elim stage.session.call_session_id [
  | none ↦ add_call θ CallStatus.in_progress stage
  | some id ↦ (ok id, stage)
]

abbrev pub is_turn_of : ℕ → TurnRow → Bool
is_turn_of id t = t.call_session_id == id

abbrev pub answered : CallStatus → CallStatus
answered CallStatus.ringing = CallStatus.in_progress
answered s = s

-- the call's row after a turn
unfoldable pub touch_call : ℕ → ℕ → List CallRow → List CallRow
touch_call id offset [] = []
touch_call id offset (c ∷ rest) =
    (if c.id == id
      then record c {
        status = answered c.status;
        duration_sec = if ltb c.duration_sec offset then offset else c.duration_sec;
      }
      else c)
    ∷ touch_call id offset rest

-- the turn's row, with its number
unfoldable pub add_turn : ℕ → Speaker → Text → ℕ → Run Stage ℕ
add_turn id speaker text offset stage =
    let seq = count_of (is_turn_of id) stage.turns in
    (
      ok seq,
      record stage {
        turns =
            stage.turns
            ++ record {
              call_session_id = id;
              speaker = speaker;
              text = text;
              seq = seq;
              at_offset_sec = offset;
            }
              ∷ [];
        calls = touch_call id offset stage.calls;
      },
    )

abbrev pub take_turn : Option Speaker → Text → ℕ → ℕ → Run Stage ℕ
take_turn none text offset id = raise value_error
take_turn (some speaker) text offset id = do
  seq ← add_turn id speaker text offset
  emit (LiveEvent.step Phase.voice_turn)
  pure seq

-- `ingest_turn`, on a speaker that `CallSpeaker` accepts or not
unfoldable pub ingest_turn : Theatre → Option Speaker → Text → ℕ → Run Stage ℕ
ingest_turn θ speaker text offset = do id ← current_call θ; take_turn speaker text offset id

-- `close`
unfoldable pub close : Run Stage (Unit {0})
close stage = if stage.session.closed then (ok tt, stage) else (
  ok tt,
  record stage { session = record (stage.session) { closed = true; queue = none ∷ [] } },
)
