-- ===== src/Workflow/Silence.antt =====
-- Steps of the graph that call no adapter, and steps that make one call at most.
use recova.Prelude.{
  ℕ, ◌≡◌, refl, ◌⊎◌, inl, inr, Option, none, some, List, [], ◌∷◌, ◌++◌, arith, subst, sym, ◌∙◌,
}
use recova.Prelude.Outcome.{Run, Result, ok, err, Error, pure, raise, ◌>>=◌}
use recova.Constants.{LifecycleState, NodeName, Outcome, StoppingRule, Action, Channel, Playbook}
use recova.Dates.{Moment}
use recova.Policy.{PolicyReason}
use recova.Database.{
  Db, Txn, Entry, Ticket, AdapterCall, AuditRow, one_txn, set_current_state, record_audit,
  enqueue_escalation,
}
use recova.Workflow.State.{RecoveryState}
use recova.Workflow.Nodes.{finalize}
use recova.Workflow.Execute.{
  adapter_call, refuse_action, carry_out, send_routed, dispatch, defer, cancel_for,
}

pub outbox-finalize :
    (key : ℕ) (state : LifecycleState) (node : NodeName) (payload : List Entry) (o : Outcome)
    (db : Db)
    → (finalize key state node payload o db).1.outbox ≡ db.outbox
unfolding finalize one_txn set_current_state record_audit
outbox-finalize key state node payload o db = ground arith

pub outbox-cancel_for :
    (rule : StoppingRule) (more : List Entry) (s : RecoveryState) (db : Db)
    → (cancel_for rule more s db).1.outbox ≡ db.outbox
unfolding cancel_for
outbox-cancel_for rule more s db = ground (
  arith,
  outbox-finalize s.transaction_id LifecycleState.cancelled NodeName.execute_intervention
      (Entry.stopping_rule rule ∷ more) Outcome.success db,
)

pub outbox-defer :
    (a : Action) (clock : Moment) (s : RecoveryState) (db : Db)
    → (defer a clock s db).1.outbox ≡ db.outbox
unfolding defer set_current_state record_audit
outbox-defer a clock s db = refl

pub outbox-refuse_action :
    (why : PolicyReason) (a : Action) (s : RecoveryState) (db : Db)
    → (refuse_action why a s db).1.outbox ≡ db.outbox
unfolding refuse_action enqueue_escalation finalize one_txn set_current_state record_audit
outbox-refuse_action why a s db = ground arith

-- A call list after at most one more call.
abbrev pub AtMostOneMore : List AdapterCall → List AdapterCall → Type 0
AtMostOneMore before after =
    (after ≡ before) ⊎ ((call : AdapterCall) × (after ≡ before ++ call ∷ []))

-- A step that sends nothing, and a step that sends one call at most.
pub record Silent {A : Type 0} (m : Run Db A) : Type 0 where
  pub at : (db : Db) → (m db).1.outbox ≡ db.outbox

pub record Sends {A : Type 0} (m : Run Db A) : Type 0 where
  pub at : (db : Db) → AtMostOneMore db.outbox (m db).1.outbox

pub Silent-pure : {A : Type 0} (a : A) → Silent (pure {A = A} a)
Silent-pure a = record { at = λ db. refl }

pub Silent-one_txn : (key : ℕ) → Silent (one_txn key)
unfolding one_txn
Silent-one_txn key = record { at = λ db. ground arith }

pub Silent-set_current_state :
    (key : ℕ) (state : LifecycleState) → Silent (set_current_state key state)
unfolding set_current_state
Silent-set_current_state key state = record { at = λ db. refl }

pub Silent-record_audit : (row : AuditRow) → Silent (record_audit row)
unfolding record_audit
Silent-record_audit row = record { at = λ db. refl }

pub Sends-routed : (o : Option AdapterCall) → Sends (send_routed o)
Sends-routed none = record { at = λ db. inl refl }
Sends-routed (some call) = record { at = λ db. inr (call, refl) }

module _ {A B : Type 0} (m : Run Db A) (f : A → Run Db B) where
  pub Silent-bind : Silent m → ((a : A) → Silent (f a)) → Silent (m >>= f)
  Silent-bind h g = record { at = λ db. after db (m db).0 (m db).1 (h.at db) }
    where
      after :
          (db : Db) (r : Result A) (db' : Db)
          → db'.outbox ≡ db.outbox
          → (elim r as (λ _. Result B × Db) [ ok a ↦ f a db' | err e ↦ (err e, db') ]).1.outbox
            ≡ db.outbox
      after db (ok a) db' e = (g a).at db' ∙ e
      after db (err x) db' e = e

  pub Sends-after : Silent m → ((a : A) → Sends (f a)) → Sends (m >>= f)
  Sends-after h g = record { at = λ db. after db (m db).0 (m db).1 (h.at db) }
    where
      after :
          (db : Db) (r : Result A) (db' : Db)
          → db'.outbox ≡ db.outbox
          → AtMostOneMore db.outbox
              (elim r as (λ _. Result B × Db) [ ok a ↦ f a db' | err e ↦ (err e, db') ]).1.outbox
      after db (ok a) db' e = subst (λ o. AtMostOneMore o (f a db').1.outbox) e ((g a).at db')
      after db (err x) db' e = inl e

  pub Sends-before : Sends m → ((a : A) → Silent (f a)) → Sends (m >>= f)
  Sends-before h g = record { at = λ db. after db (m db).0 (m db).1 (h.at db) }
    where
      after :
          (db : Db) (r : Result A) (db' : Db)
          → AtMostOneMore db.outbox db'.outbox
          → AtMostOneMore db.outbox
              (elim r as (λ _. Result B × Db) [ ok a ↦ f a db' | err e ↦ (err e, db') ]).1.outbox
      after db (ok a) db' s = subst (AtMostOneMore db.outbox) (sym ((g a).at db')) s
      after db (err x) db' s = s

pub dispatch-Sends : (a : Action) (amount : Option ℕ) (key : ℕ) → Sends (dispatch a amount key)
unfolding dispatch
dispatch-Sends a amount key =
    Sends-after _ _ (Silent-one_txn key) (λ txn. Sends-routed (adapter_call txn amount a))

pub carry_out-Sends :
    (txn : Txn) (p : Playbook) (a : Action) (c : Option Channel) (s : RecoveryState)
    → Sends (carry_out txn p a c s)
unfolding carry_out
carry_out-Sends txn p a c s = Sends-after _ _ (Silent-set_current_state _ _) λ _.
    Sends-before _ _ (dispatch-Sends a (some txn.amount_minor) s.transaction_id)
      λ _. Silent-bind _ _ (Silent-record_audit _) λ _. Silent-pure _

pub Silent-enqueue_escalation : (ticket : Ticket) → Silent (enqueue_escalation ticket)
unfolding enqueue_escalation
Silent-enqueue_escalation ticket = record { at = λ db. refl }

pub Silent-raise : {A : Type 0} (e : Error) → Silent (raise {A = A} e)
Silent-raise e = record { at = λ db. refl }

pub Silent-finalize :
    (key : ℕ) (state : LifecycleState) (node : NodeName) (payload : List Entry) (o : Outcome)
    → Silent (finalize key state node payload o)
Silent-finalize key state node payload o = record { at = outbox-finalize key state node payload o }
