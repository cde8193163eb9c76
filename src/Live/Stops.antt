-- ===== src/Live/Stops.antt =====
-- A reply that halts the case: what the session does on it.
use recova.Prelude.{◌≡◌, refl, sym, ap, arith, subst, ◌∙◌, true, false, Option, none, some}
use recova.Prelude.Text.{Text}
use recova.Prelude.Outcome.{Run, Result, ok, err, ◌>>=◌, ◌>>◌, bind-ok, bind-pointwise}
use recova.Prelude.Steps.{Respects}
use recova.Constants.{LifecycleState, StoppingRule}
use recova.Compliance.{Disposition, MessageVerdict}
use recova.Reply.Understanding.{ReplyReading, Source, continues}
use recova.Database.{Txn, find_txn}
use recova.Thread.{Direction, Sender, Body}
use recova.Live.{Stage, Theatre, signal_end, post, set_terminal}
use recova.Live.Decisions.{finish}
use recova.Live.Dialogue.{Hearing, start, reading_of, hear, emit_judged, screened_stop}
use recova.Live.Answer.{final_state, act_on_reading, respond, respond_if_open, reply}
use recova.Live.Evolution.{Evolves, Evolves-signal_end}
use recova.Live.Requests.{Tends}
use recova.Live.Replies.{Tends-final_state}
use recova.Live.Mute.{Mute, mute_rules, Mute-screened_stop, Mute-post}
use recova.Live.Rows.{
  Lands, Moves, Moves-bind, Moves-pure, Moves-emit, Moves-current, Moves-post, Moves-screened_stop,
  stopped_row,
}

-- A step after which the session is terminal, if it returns.
abbrev IsTerminal : {A : Type 0} → Result A × Stage → Type 0
IsTerminal (ok a, s) = s.session.terminal ≡ true
IsTerminal (err e, s) = Unit

record Ends {A : Type 0} (m : Run Stage A) : Type 0 where
  at : (s : Stage) → IsTerminal (m s)

module _ {A B : Type 0} (m : Run Stage A) (f : A → Run Stage B) where
  Ends-after : ((a : A) → Ends (f a)) → Ends (m >>= f)
  Ends-after h = record { at = λ s. after (m s).0 (m s).1 }
    where
      after :
          (r : Result A) (s : Stage)
          → IsTerminal (elim r as (λ _. Result B × Stage) [ ok a ↦ f a s | err e ↦ (err e, s) ])
      after (ok a) s = (h a).at s
      after (err e) s = tt

  Ends-before : (θ : Theatre) → Ends m → ((a : A) → Tends θ (f a)) → Ends (m >>= f)
  Ends-before θ hm hf = record { at = λ s. after (m s).0 (m s).1 (hm.at s) }
    where
      terminal_if :
          (s : Stage) (r : Result B × Stage)
          → s.session.terminal ≡ true
          → Evolves θ.transaction_id s r.1
          → IsTerminal r
      terminal_if s (ok b, s') t e = e.stays_terminal t
      terminal_if s (err x, s') t e = tt

      after :
          (r : Result A) (s : Stage)
          → IsTerminal (r, s)
          → IsTerminal (elim r as (λ _. Result B × Stage) [ ok a ↦ f a s | err e ↦ (err e, s) ])
      after (ok a) s t = terminal_if s (f a s) t ((hf a).at s)
      after (err e) s t = tt

Ends-set_terminal : Ends set_terminal
unfolding set_terminal
Ends-set_terminal = record { at = λ s. refl }

module _ (θ : Theatre) where
  Ends-here : Ends (set_terminal >> signal_end)
  Ends-here = Ends-before _ _ θ Ends-set_terminal λ _. Evolves-signal_end θ.transaction_id

  Ends-finish : (state : LifecycleState) (rule : Option StoppingRule) → Ends (finish θ state rule)
  unfolding finish
  Ends-finish state rule = search (Ends-after, Ends-here) depth 15

  Ends-screened_stop : (v : MessageVerdict) → Ends (screened_stop θ v)
  unfolding screened_stop
  Ends-screened_stop v = search (Ends-after, Ends-finish) depth 15

  Moves-emit_judged : (t : Txn) (source : Source) → Moves θ t t (emit_judged source)
  Moves-emit_judged t Source.jev = Moves-bind θ _ _ (Moves-emit θ t _) λ _. Moves-emit θ t _
  Moves-emit_judged t Source.keyword = Moves-pure θ t _
  Moves-emit_judged t Source.empty = Moves-pure θ t _

  Mute-emit_judged : (source : Source) → Respects Mute (emit_judged source)
  Mute-emit_judged Source.jev = search mute_rules
  Mute-emit_judged Source.keyword = search mute_rules
  Mute-emit_judged Source.empty = search mute_rules

  Moves-final_state : (t : Txn) → Moves θ t t (final_state θ)
  unfolding final_state
  Moves-final_state t = Moves-bind θ _ _ (Moves-current θ t) λ u. Moves-pure θ t _

  Mute-final_state : Respects Mute (final_state θ)
  unfolding final_state
  Mute-final_state = search mute_rules

  -- What a reply does whose reading halts the case.
  abbrev stop_run : Text → ReplyReading → Run Stage LifecycleState
  stop_run text reading = do
    post θ Direction.inbound Sender.customer (Body.words text) none
    emit_judged reading.source
    screened_stop θ reading.verdict
    final_state θ

  acts :
      (h : Hearing) (reading : ReplyReading) (d : Disposition)
      → continues d ≡ false
      → act_on_reading θ h reading d ≡ (screened_stop θ reading.verdict >> final_state θ)
  acts h reading Disposition.terminate e = refl
  acts h reading Disposition.escalate e = refl
  acts h reading Disposition.continue e = ground arith

  heard_as :
      (h : Hearing) (text : Text) (reading : ReplyReading) (s : Stage)
      → reading_of θ h text ≡ ok reading
      → hear θ h text s ≡ (ok reading, s)
  unfolding hear
  heard_as h text reading s heard = ap (λ r. (r, s)) heard

  then_stops :
      (h : Hearing) (text : Text) (reading : ReplyReading) (s : Stage)
      → reading_of θ h text ≡ ok reading
      → continues reading.verdict.disposition ≡ false
      → (hear θ h text >>= λ r.
            emit_judged r.source >>= λ _. act_on_reading θ h r r.verdict.disposition)
          s
        ≡ (emit_judged reading.source >>= λ _. screened_stop θ reading.verdict >> final_state θ) s
  then_stops h text reading s heard halts =
      bind-ok (hear θ h text)
        (λ r. emit_judged r.source >>= λ _. act_on_reading θ h r r.verdict.disposition) s
        (heard_as h text reading s heard)
      ∙ bind-pointwise (emit_judged reading.source)
          (λ _. act_on_reading θ h reading reading.verdict.disposition)
          (λ _. screened_stop θ reading.verdict >> final_state θ) s
          (λ _ u. ap (λ m. m u) (acts h reading reading.verdict.disposition halts))

  responds :
      (h : Hearing) (text : Text) (reading : ReplyReading) (s : Stage)
      → reading_of θ h text ≡ ok reading
      → continues reading.verdict.disposition ≡ false
      → respond θ h text s ≡ stop_run text reading s
  unfolding respond
  responds h text reading s heard halts =
      bind-pointwise (post θ Direction.inbound Sender.customer (Body.words text) none)
        (λ _. hear θ h text >>= λ r.
          emit_judged r.source >>= λ _. act_on_reading θ h r r.verdict.disposition)
        (λ _. emit_judged reading.source >>= λ _. screened_stop θ reading.verdict >> final_state θ)
        s λ _ u. then_stops h text reading u heard halts

  Moves-stop_run :
      (t : Txn) (text : Text) (reading : ReplyReading) (r : StoppingRule)
      → reading.verdict.rule ≡ some r
      → Moves θ t (stopped_row θ reading.verdict.disposition t) (stop_run text reading)
  Moves-stop_run t text reading r ruled = Moves-bind θ _ _ (Moves-post θ t _ _ _ _) λ _.
      Moves-bind θ _ _ (Moves-emit_judged t reading.source) λ _.
        Moves-bind θ _ _ (Moves-screened_stop θ t reading.verdict r ruled) λ _. Moves-final_state _

  Mute-stop_run : (text : Text) (reading : ReplyReading) → Respects Mute (stop_run text reading)
  Mute-stop_run text reading =
      search (mute_rules, Mute-post, Mute-emit_judged, Mute-screened_stop, Mute-final_state)

  stopped-Ends : (v : MessageVerdict) → Ends (screened_stop θ v >> final_state θ)
  stopped-Ends v = Ends-before _ _ θ (Ends-screened_stop v) λ _. Tends-final_state θ

  Ends-stop_run : (text : Text) (reading : ReplyReading) → Ends (stop_run text reading)
  Ends-stop_run text reading = search (Ends-after, stopped-Ends)

  started_run :
      (h : Hearing) (text : Text) (s : Stage)
      → s.session.started ≡ true
      → s.session.closed ≡ false
      → s.session.terminal ≡ false
      → reply θ h text s ≡ respond θ h text s
  unfolding reply start respond_if_open
  started_run h text s started live running = rw (started, live, running) refl

  -- The outcome of a reply that halts the case: the row of the case, the session, and silence.
  abbrev pub Stopped : Stage → Txn → Disposition → Result LifecycleState × Stage → Type 0
  Stopped before t d (ok state, after) =
      (find_txn θ.transaction_id after.store.db.transactions ≡ some (stopped_row θ d t))
      × (after.session.terminal ≡ true)
      × Mute before after
  Stopped before t d (err e, after) = ⊥

  Stopped-of :
      (before : Stage) (t : Txn) (d : Disposition) (r : Result LifecycleState × Stage)
      → Lands θ (stopped_row θ d t) r
      → IsTerminal r
      → Mute before r.1
      → Stopped before t d r
  Stopped-of before t d (ok state, after) row terminal mute = (row, terminal, mute)
  Stopped-of before t d (err e, after) row terminal mute = row

-- On a case that exists, a reply in a session that is started, open and not terminal, whose reading
-- halts the case under some rule, returns: it leaves the case escalated or cancelled and worked, the
-- session terminal, and makes no adapter call, no artifact and no voice call.
pub reply-stops :
    (θ : Theatre) (h : Hearing) (text : Text) (s : Stage) (t : Txn) (reading : ReplyReading)
    (rule : StoppingRule)
    → find_txn θ.transaction_id s.store.db.transactions ≡ some t
    → s.session.started ≡ true
    → s.session.closed ≡ false
    → s.session.terminal ≡ false
    → reading_of θ h text ≡ ok reading
    → continues reading.verdict.disposition ≡ false
    → reading.verdict.rule ≡ some rule
    → Stopped θ s t reading.verdict.disposition (reply θ h text s)
reply-stops θ h text s t reading rule here started live running heard halts ruled =
    subst (Stopped θ s t reading.verdict.disposition)
      (sym (started_run θ h text s started live running ∙ responds θ h text reading s heard halts))
      (Stopped-of θ s t reading.verdict.disposition (stop_run θ text reading s)
        ((Moves-stop_run θ t text reading rule ruled).at s here)
        ((Ends-stop_run θ text reading).at s) ((Mute-stop_run θ text reading).at s))
