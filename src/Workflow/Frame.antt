-- ===== src/Workflow/Frame.antt =====
-- What one run of the recovery graph leaves alone: the other cases, and all that was recorded.
use recova.Prelude.{
  ℕ, ◌≡◌, refl, Bool, true, false, Option, none, some, List, [], ◌∷◌, Extends-refl, Extends-snoc,
  subst, if◌then◌else◌,
}
use recova.Prelude.Text.{Text}
use recova.Prelude.Outcome.{Run, Result, ok, err, Error, pure, raise, ◌>>=◌}
use recova.Constants.{
  FailureClass, LifecycleState, NodeName, Outcome, Channel, StoppingRule, Action, Playbook,
}
use recova.Dates.{Moment}
use recova.Compliance.{Disposition}
use recova.Reply.Understanding.{ReplyReading}
use recova.Database.{Db, Txn, Entry, AdapterCall}
use recova.Database.Growth.{
  Grows, Grows-trans, Grown, Grown-pure, Grown-raise, Grown-one_txn, grown_rules,
}
use recova.Workflow.State.{RecoveryState, Deps, PlaybookName}
use recova.Workflow.Nodes.{
  finalize, rule_value, act_on_verdict, screen_message, ingest, class_of_state, diagnose, wait,
}
use recova.Workflow.Execute.{
  send_routed, dispatch, playbook_of_state, defer, cancel_for, refuse_action, carry_out, intervene,
  gate, execute,
}
use recova.Workflow.Graph.{
  reconcile, after_execute, from_execute, after_diagnose, after_ingest, invoke,
}

-- A node's result: the database has only grown, and the state is still about the same case.
abbrev pub NodeResult : ℕ → Db → Result RecoveryState × Db → Type 0
NodeResult key db (ok s, db') = (s.transaction_id ≡ key) × Grows key db db'
NodeResult key db (err e, db') = Grows key db db'

record IsNode (key : ℕ) (m : Run Db RecoveryState) : Type 0 where
  at : (db : Db) → NodeResult key db (m db)

module _ (key : ℕ) where
  IsNode-pure : (s : RecoveryState) → s.transaction_id ≡ key → IsNode key (pure s)
  IsNode-pure s e = record { at = λ db. (e, (Grown-pure key s).at db) }

  IsNode-raise : (e : Error) → IsNode key (raise e)
  IsNode-raise e = record { at = λ db. (Grown-raise {A = RecoveryState} key e).at db }

  IsNode-if :
      (b : Bool) (m n : Run Db RecoveryState)
      → IsNode key m
      → IsNode key n
      → IsNode key (if b then m else n)
  IsNode-if true m n hm hn = hm
  IsNode-if false m n hm hn = hn

  weaken :
      (a b : Db) (r : Result RecoveryState × Db)
      → Grows key a b
      → NodeResult key b r
      → NodeResult key a r
  weaken a b (ok s, c) g (e, h) = (e, Grows-trans key a b c g h)
  weaken a b (err e, c) g h = Grows-trans key a b c g h

  IsNode-bind :
      {A : Type 0} (m : Run Db A) (f : A → Run Db RecoveryState)
      → Grown key m
      → ((a : A) → IsNode key (f a))
      → IsNode key (m >>= f)
  IsNode-bind {A} m f gm gf = record { at = λ db. after db (m db).0 (m db).1 (gm.at db) }
    where
      after :
          (db : Db) (r : Result A) (db' : Db)
          → Grows key db db'
          → NodeResult key db
              (elim r as (λ _. Result RecoveryState × Db) [ ok a ↦ f a db' | err e ↦ (err e, db') ])
      after db (ok a) db' g = weaken db db' (f a db') g ((gf a).at db')
      after db (err e) db' g = g

  IsNode-chain :
      (m : Run Db RecoveryState) (f : RecoveryState → Run Db RecoveryState)
      → IsNode key m
      → ((s : RecoveryState) → s.transaction_id ≡ key → IsNode key (f s))
      → IsNode key (m >>= f)
  IsNode-chain m f hm hf = record { at = λ db. after db (m db).0 (m db).1 (hm.at db) }
    where
      after :
          (db : Db) (r : Result RecoveryState) (db' : Db)
          → NodeResult key db (r, db')
          → NodeResult key db
              (elim r as (λ _. Result RecoveryState × Db) [ ok a ↦ f a db' | err e ↦ (err e, db') ])
      after db (ok a) db' (e, g) = weaken db db' (f a db') g ((hf a e).at db')
      after db (err e) db' g = g

ruleset node_rules = (grown_rules, IsNode-pure, IsNode-raise, IsNode-if, IsNode-bind, refl)

Grown-finalize :
    (key : ℕ) (state : LifecycleState) (node : NodeName) (payload : List Entry) (outcome : Outcome)
    → Grown key (finalize key state node payload outcome)
unfolding finalize
Grown-finalize key state node payload outcome = search grown_rules

Grown-rule_value : (key : ℕ) (r : Option StoppingRule) → Grown key (rule_value r)
Grown-rule_value key none = search grown_rules
Grown-rule_value key (some r) = search grown_rules

act_on_verdict-IsNode :
    (txn : Txn) (reading : ReplyReading) (d : Disposition) (s : RecoveryState)
    → IsNode s.transaction_id (act_on_verdict txn reading d s)
unfolding act_on_verdict
act_on_verdict-IsNode txn reading Disposition.terminate s =
    search (node_rules, Grown-rule_value, Grown-finalize)
act_on_verdict-IsNode txn reading Disposition.escalate s =
    search (node_rules, Grown-rule_value, Grown-finalize)
act_on_verdict-IsNode txn reading Disposition.continue s = search node_rules

screen_message-IsNode :
    (deps : Deps) (txn : Txn) (o : Option Text) (s : RecoveryState)
    → IsNode s.transaction_id (screen_message deps txn o s)
unfolding screen_message
screen_message-IsNode deps txn none s = search node_rules
screen_message-IsNode deps txn (some []) s = search node_rules
screen_message-IsNode deps txn (some (c ∷ m)) s = search act_on_verdict-IsNode

ingest-IsNode : (deps : Deps) (s : RecoveryState) → IsNode s.transaction_id (ingest deps s)
unfolding ingest
ingest-IsNode deps s = search (node_rules, screen_message-IsNode)

Grown-class_of_state : (key : ℕ) (o : Option FailureClass) → Grown key (class_of_state o)
Grown-class_of_state key none = search grown_rules
Grown-class_of_state key (some fc) = search grown_rules

diagnose-IsNode : (deps : Deps) (s : RecoveryState) → IsNode s.transaction_id (diagnose deps s)
unfolding diagnose
diagnose-IsNode deps s = search (node_rules, Grown-class_of_state)

wait-IsNode : (deps : Deps) (s : RecoveryState) → IsNode s.transaction_id (wait deps s)
unfolding wait
wait-IsNode deps s = search node_rules

Grown-send_routed : (key : ℕ) (o : Option AdapterCall) → Grown key (send_routed o)
Grown-send_routed key none = search grown_rules
Grown-send_routed key (some call) = record {
  at = λ db. record {
    audits = Extends-refl db.audits;
    escalations = Extends-refl db.escalations;
    outbox = Extends-snoc db.outbox call;
    others = λ j ne. refl;
  };
}

pub Grown-dispatch :
    (key : ℕ) (action : Action) (amount : Option ℕ) (j : ℕ) → Grown key (dispatch action amount j)
unfolding dispatch
Grown-dispatch key action amount j = search (grown_rules, Grown-send_routed)

Grown-playbook_of_state : (key : ℕ) (o : Option PlaybookName) → Grown key (playbook_of_state o)
Grown-playbook_of_state key none = search grown_rules
Grown-playbook_of_state key (some (PlaybookName.known p)) = search grown_rules
Grown-playbook_of_state key (some (PlaybookName.unknown t)) = search grown_rules

intervene-IsNode :
    (deps : Deps) (txn : Txn) (p : Playbook) (a : Action) (c : Option Channel) (s : RecoveryState)
    → IsNode s.transaction_id (intervene deps txn p a c s)
unfolding intervene refuse_action carry_out
intervene-IsNode deps txn p a c s = search (node_rules, Grown-finalize, Grown-dispatch)

gate-IsNode :
    (deps : Deps) (txn : Txn) (p : Playbook) (a : Action) (c : Option Channel) (clock : Moment)
    (attempts : ℕ) (s : RecoveryState)
    → IsNode s.transaction_id (gate deps txn p a c clock attempts s)
unfolding gate defer cancel_for
gate-IsNode deps txn p a c clock attempts s = search (node_rules, Grown-finalize, intervene-IsNode)

execute-IsNode : (deps : Deps) (s : RecoveryState) → IsNode s.transaction_id (execute deps s)
unfolding execute
execute-IsNode deps s = record {
  at = λ db.
      (IsNode-bind s.transaction_id _ _ (Grown-one_txn s.transaction_id s.transaction_id) λ txn.
          IsNode-bind s.transaction_id _ _ (Grown-playbook_of_state s.transaction_id s.playbook)
            λ p. gate-IsNode deps txn p _ _ _ _ s).at
        db;
}

reconcile-IsNode : (deps : Deps) (s : RecoveryState) → IsNode s.transaction_id (reconcile deps s)
unfolding reconcile
reconcile-IsNode deps s = search (node_rules, Grown-finalize)

-- A step that follows a node.
Follows : (RecoveryState → Run Db RecoveryState) → Type 0
Follows f = (s : RecoveryState) → IsNode s.transaction_id (f s)

chained :
    (key : ℕ) (m : Run Db RecoveryState) (f : RecoveryState → Run Db RecoveryState)
    → IsNode key m
    → Follows f
    → IsNode key (m >>= f)
unfolding Follows
chained key m f hm hf = IsNode-chain key m f hm (λ s e. subst (λ k. IsNode k (f s)) e (hf s))

after_execute-Follows : (deps : Deps) → Follows (after_execute deps)
unfolding after_execute Follows
after_execute-Follows deps s = search (node_rules, reconcile-IsNode)

from_execute-Follows : (deps : Deps) → Follows (from_execute deps)
unfolding from_execute Follows
from_execute-Follows deps s =
    chained s.transaction_id _ _ (execute-IsNode deps s) (after_execute-Follows deps)

after_diagnose-Follows : (deps : Deps) → Follows (after_diagnose deps)
unfolding after_diagnose Follows
after_diagnose-Follows deps s =
    IsNode-if s.transaction_id _ _ _
      (chained s.transaction_id _ _ (wait-IsNode deps s) (from_execute-Follows deps))
      (from_execute-Follows deps s)

after_ingest-Follows : (deps : Deps) → Follows (after_ingest deps)
unfolding after_ingest Follows
after_ingest-Follows deps s =
    IsNode-if s.transaction_id _ _ _ (IsNode-pure s.transaction_id s refl)
      (chained s.transaction_id _ _ (diagnose-IsNode deps s) (after_diagnose-Follows deps))

-- A run of the graph, whether it ends or raises, only appends to the audit trail, the tickets and
-- the calls, and changes no row of any other case.
pub invoke-Grows :
    (deps : Deps) (s : RecoveryState) (db : Db) → Grows s.transaction_id db (invoke deps s db).1
unfolding invoke
invoke-Grows deps s db =
    grows (chained s.transaction_id _ _ (ingest-IsNode deps s) (after_ingest-Follows deps))
  where
    grown_of :
        (r : Result RecoveryState × Db)
        → NodeResult s.transaction_id db r
        → Grows s.transaction_id db r.1
    grown_of (ok _, db') (_, g) = g
    grown_of (err _, db') g = g

    grows : IsNode s.transaction_id (invoke deps s) → Grows s.transaction_id db (invoke deps s db).1
    grows n = grown_of (invoke deps s db) (n.at db)
