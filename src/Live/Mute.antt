-- ===== src/Live/Mute.antt =====
-- Steps of a session that contact nobody.
use recova.Prelude.{
  ◌≡◌, refl, ◌∙◌, Bool, true, false, Option, none, some, [], ◌∷◌, ◌++◌, if◌then◌else◌,
}
use recova.Prelude.Outcome.{Run, Result, ok, err, Error}
use recova.Prelude.Steps.{IsPreorder, Respects, Respects-bind, step_rules}
use recova.Constants.{LifecycleState, StoppingRule}
use recova.Compliance.{Disposition, MessageVerdict}
use recova.Database.{Txn, Db, find_txn}
use recova.Workflow.Silence.{Silent, Silent-record_audit, Silent-enqueue_escalation}
use recova.Artifacts.{Artifact}
use recova.Thread.{Direction, Sender, Body}
use recova.Live.{
  Stage, Theatre, emit, signal_end, on_db, on_store, current_txn, change_case, write_message, post,
  set_terminal,
}
use recova.Live.Events.{LiveEvent, Bounds}
use recova.Live.Turns.{emit_gauge, emit_bounds}
use recova.Live.Decisions.{finish}
use recova.Live.Dialogue.{enqueue_if_escalated, rule_of, screened_stop}

-- Nobody is contacted: no adapter call, no artifact, no voice call.
pub record Mute (before after : Stage) : Type 0 where
  pub outbox : after.store.db.outbox ≡ before.store.db.outbox
  pub artifacts : after.store.artifacts ≡ before.store.artifacts
  pub calls : after.calls ≡ before.calls

pub Mute-IsPreorder : IsPreorder Mute
Mute-IsPreorder = record {
  stays = λ s. record { outbox = refl; artifacts = refl; calls = refl };
  chains = λ a b c g h. record {
    outbox = h.outbox ∙ g.outbox;
    artifacts = h.artifacts ∙ g.artifacts;
    calls = h.calls ∙ g.calls;
  };
}

pub Mute-on_db : {A : Type 0} (m : Run Db A) → Silent m → Respects Mute (on_db m)
unfolding on_db
Mute-on_db m h = record {
  at = λ s. record { outbox = h.at s.store.db; artifacts = refl; calls = refl };
}

pub Silent-change_case : (θ : Theatre) (f : Txn → Txn) → Silent (change_case θ f)
unfolding change_case
Silent-change_case θ f = record { at = λ db. refl }

pub Mute-emit : (event : LiveEvent) → Respects Mute (emit event)
unfolding emit
Mute-emit event = record { at = λ s. by_closed s s.session.closed }
  where
    by_closed :
        (s : Stage) (b : Bool)
        → Mute s (
            if b then s else record s {
              session = record (s.session) { queue = s.session.queue ++ some event ∷ [] };
            })
    by_closed s true = Mute-IsPreorder.stays s
    by_closed s false = record { outbox = refl; artifacts = refl; calls = refl }

pub Mute-signal_end : Respects Mute signal_end
unfolding signal_end
Mute-signal_end = record { at = λ s. record { outbox = refl; artifacts = refl; calls = refl } }

pub Mute-set_terminal : Respects Mute set_terminal
unfolding set_terminal
Mute-set_terminal = record { at = λ s. record { outbox = refl; artifacts = refl; calls = refl } }

module _ (θ : Theatre) where
  pub Mute-current : Respects Mute (current_txn θ)
  unfolding current_txn
  Mute-current = record { at = λ s. by_row s (find_txn θ.transaction_id s.store.db.transactions) }
    where
      by_row :
          (s : Stage) (o : Option Txn)
          → Mute s
              (elim o as (λ _. Result Txn × Stage) [
                | none ↦ (err Error.value_error, s)
                | some t ↦ (ok t, s)
              ]).1
      by_row s none = Mute-IsPreorder.stays s
      by_row s (some t) = Mute-IsPreorder.stays s

  pub ruleset mute_rules = (
    step_rules, Mute-IsPreorder, Mute-on_db, Silent-record_audit, Silent-enqueue_escalation,
    Silent-change_case, Mute-emit, Mute-signal_end, Mute-set_terminal, Mute-current,
  )

  Mute-written :
      (direction : Direction) (sender : Sender) (body : Body) (a : Option Artifact)
      → Respects Mute (on_store (write_message θ direction sender body a))
  unfolding on_store write_message
  Mute-written direction sender body a = record {
    at = λ s. record { outbox = refl; artifacts = refl; calls = refl };
  }

  pub Mute-post :
      (direction : Direction) (sender : Sender) (body : Body) (a : Option Artifact)
      → Respects Mute (post θ direction sender body a)
  unfolding post
  Mute-post direction sender body a = search (mute_rules, Mute-written)

  Mute-emit_gauge :
      (event : Bounds → LiveEvent) (rule : Option StoppingRule) (t : Txn)
      → Respects Mute (emit_gauge θ event rule t)
  unfolding emit_gauge
  Mute-emit_gauge event rule t = record { at = λ s. (Mute-emit _).at s }

  pub Mute-emit_bounds : (rule : Option StoppingRule) → Respects Mute (emit_bounds θ rule)
  unfolding emit_bounds
  Mute-emit_bounds rule = search (mute_rules, Mute-emit_gauge)

  pub Mute-finish :
      (state : LifecycleState) (rule : Option StoppingRule) → Respects Mute (finish θ state rule)
  unfolding finish
  Mute-finish state rule = search (mute_rules, Mute-emit_bounds) depth 15

  Mute-rule_of : (o : Option StoppingRule) → Respects Mute (rule_of o)
  Mute-rule_of none = search mute_rules
  Mute-rule_of (some r) = search mute_rules

  Mute-enqueue : (v : MessageVerdict) (d : Disposition) → Respects Mute (enqueue_if_escalated θ v d)
  Mute-enqueue v Disposition.escalate = search mute_rules
  Mute-enqueue v Disposition.terminate = search mute_rules
  Mute-enqueue v Disposition.continue = search mute_rules

  pub Mute-screened_stop : (v : MessageVerdict) → Respects Mute (screened_stop θ v)
  unfolding screened_stop
  Mute-screened_stop v =
      search (mute_rules, Mute-enqueue, Mute-rule_of, Mute-post, Mute-finish) depth 15
