-- ===== src/Live/Rows.antt =====
-- Steps of a session that return, and what they make of the case's row.
use recova.Prelude.{◌≡◌, refl, Bool, true, false, Option, some, [], ◌∷◌, ◌++◌, if◌then◌else◌}
use recova.Prelude.Outcome.{Run, Result, ok, err, pure, ◌>>=◌}
use recova.Constants.{LifecycleState, StoppingRule}
use recova.Compliance.{Disposition, MessageVerdict}
use recova.Database.{Txn, AuditRow, find_txn, with_state, record_audit, enqueue_escalation}
use recova.Database.Rows.{find-modify_self}
use recova.Artifacts.{Artifact}
use recova.Thread.{Direction, Sender, Body}
use recova.Live.{
  Stage, Theatre, emit, signal_end, on_db, on_store, current_txn, change_case, write_message, post,
  set_terminal,
}
use recova.Live.Events.{LiveEvent}
use recova.Live.Turns.{emit_gauge, emit_bounds}
use recova.Live.Decisions.{finish, finished}
use recova.Live.Dialogue.{stop_state, enqueue_if_escalated, rule_of, screened_stop}
use recova.Live.Requests.{current_txn-found}

-- A step that returns, and takes the case's row from one value to another.
abbrev pub Lands : Theatre → Txn → {A : Type 0} → Result A × Stage → Type 0
Lands θ t (ok a, s) = find_txn θ.transaction_id s.store.db.transactions ≡ some t
Lands θ t (err e, s) = ⊥

pub record Moves (θ : Theatre) (t u : Txn) {A : Type 0} (m : Run Stage A) : Type 0 where
  pub at :
      (s : Stage) → find_txn θ.transaction_id s.store.db.transactions ≡ some t → Lands θ u (m s)

module _ (θ : Theatre) where
  pub Moves-pure : {A : Type 0} (t : Txn) (a : A) → Moves θ t t (pure a)
  Moves-pure t a = record { at = λ s h. h }

  pub Moves-bind :
      {A B : Type 0} {t u v : Txn} (m : Run Stage A) (f : A → Run Stage B)
      → Moves θ t u m
      → ((a : A) → Moves θ u v (f a))
      → Moves θ t v (m >>= f)
  Moves-bind {A} {B} {t} {u} {v} m f hm hf = record {
    at = λ s h. after (m s).0 (m s).1 (hm.at s h);
  }
    where
      after :
          (r : Result A) (s : Stage)
          → Lands θ u (r, s)
          → Lands θ v (elim r as (λ _. Result B × Stage) [ ok a ↦ f a s | err e ↦ (err e, s) ])
      after (ok a) s h = (hf a).at s h
      after (err e) s h = h

  pub Moves-emit : (t : Txn) (event : LiveEvent) → Moves θ t t (emit event)
  unfolding emit
  Moves-emit t event = record { at = λ s h. by_closed s s.session.closed h }
    where
      by_closed :
          (s : Stage) (b : Bool)
          → find_txn θ.transaction_id s.store.db.transactions ≡ some t
          → find_txn θ.transaction_id
              (if b then s else record s {
                session = record (s.session) { queue = s.session.queue ++ some event ∷ [] };
              }).store.db.transactions
            ≡ some t
      by_closed s true h = h
      by_closed s false h = h

  pub Moves-current : (t : Txn) → Moves θ t t (current_txn θ)
  Moves-current t = record { at = λ s h. rw (current_txn-found θ s h) h }

  pub Moves-case :
      (t : Txn) (f : Txn → Txn)
      → ((t : Txn) → (f t).transaction_id ≡ t.transaction_id)
      → Moves θ t (f t) (on_db (change_case θ f))
  unfolding on_db change_case
  Moves-case t f keeps = record {
    at = λ s h. find-modify_self θ.transaction_id f s.store.db.transactions keeps h;
  }

  pub Moves-audit : (t : Txn) (row : AuditRow) → Moves θ t t (on_db (record_audit row))
  unfolding on_db record_audit
  Moves-audit t row = record { at = λ s h. h }

  pub Moves-written :
      (t : Txn) (direction : Direction) (sender : Sender) (body : Body) (a : Option Artifact)
      → Moves θ t t (on_store (write_message θ direction sender body a))
  unfolding on_store write_message
  Moves-written t direction sender body a = record { at = λ s h. h }

  pub Moves-post :
      (t : Txn) (direction : Direction) (sender : Sender) (body : Body) (a : Option Artifact)
      → Moves θ t t (post θ direction sender body a)
  unfolding post
  Moves-post t direction sender body a =
      Moves-bind _ _ (Moves-written t direction sender body a) λ row. Moves-emit t _

  pub Moves-set_terminal : (t : Txn) → Moves θ t t set_terminal
  unfolding set_terminal
  Moves-set_terminal t = record { at = λ s h. h }

  pub Moves-signal_end : (t : Txn) → Moves θ t t signal_end
  unfolding signal_end
  Moves-signal_end t = record { at = λ s h. h }

  pub Moves-emit_gauge :
      (t : Txn) (rule : Option StoppingRule) (u : Txn)
      → Moves θ t t (emit_gauge θ LiveEvent.bounds rule u)
  unfolding emit_gauge
  Moves-emit_gauge t rule u = record { at = λ s h. (Moves-emit t _).at s h }

  pub Moves-emit_bounds : (t : Txn) (rule : Option StoppingRule) → Moves θ t t (emit_bounds θ rule)
  unfolding emit_bounds
  Moves-emit_bounds t rule = Moves-bind _ _ (Moves-current t) λ u. Moves-emit_gauge t rule u

  pub Moves-enqueue :
      (t : Txn) (v : MessageVerdict) (d : Disposition) → Moves θ t t (enqueue_if_escalated θ v d)
  unfolding on_db enqueue_escalation
  Moves-enqueue t v Disposition.escalate = record { at = λ s h. h }
  Moves-enqueue t v Disposition.terminate = record { at = λ s h. h }
  Moves-enqueue t v Disposition.continue = record { at = λ s h. h }

  pub Moves-rule_of :
      (t : Txn) (o : Option StoppingRule) (r : StoppingRule) → o ≡ some r → Moves θ t t (rule_of o)
  Moves-rule_of t o r e = rw e (Moves-pure t r)

  pub Moves-finish :
      (t : Txn) (state : LifecycleState) (rule : Option StoppingRule)
      → Moves θ t (finished state t) (finish θ state rule)
  unfolding finish
  Moves-finish t state rule = Moves-bind _ _ (Moves-current t) λ _.
      Moves-bind _ _ (Moves-case t (finished state) (λ u. refl)) λ _.
        Moves-bind _ _ (Moves-emit_bounds _ rule) λ _. Moves-bind _ _ (Moves-emit _ _) λ _.
          Moves-bind _ _ (Moves-emit _ _)
            λ _. Moves-bind _ _ (Moves-set_terminal _) λ _. Moves-signal_end _

  -- The row that a stop leaves.
  abbrev pub stopped_row : Disposition → Txn → Txn
  stopped_row d t = finished (stop_state d) (with_state (stop_state d) t)

  pub Moves-screened_stop :
      (t : Txn) (v : MessageVerdict) (r : StoppingRule)
      → v.rule ≡ some r
      → Moves θ t (stopped_row v.disposition t) (screened_stop θ v)
  unfolding screened_stop
  Moves-screened_stop t v r ruled = Moves-bind _ _ (Moves-current t) λ _.
      Moves-bind _ _ (Moves-enqueue t v v.disposition) λ _.
        Moves-bind _ _ (Moves-case t (with_state (stop_state v.disposition)) (λ u. refl)) λ _.
          Moves-bind _ _ (Moves-rule_of _ v.rule r ruled) λ rule.
            Moves-bind _ _ (Moves-audit _ _) λ _.
              Moves-bind _ _ (Moves-emit _ _)
                λ _. Moves-bind _ _ (Moves-post _ _ _ _ _) λ _. Moves-finish _ _ _
