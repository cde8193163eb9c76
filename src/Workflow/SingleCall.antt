-- ===== src/Workflow/SingleCall.antt =====
-- A whole run of the graph makes one adapter call at most.
use recova.Prelude.{Bool, true, false, Option, none, some, [], ◌∷◌, inl, inr, if◌then◌else◌}
use recova.Prelude.Text.{Text}
use recova.Prelude.Outcome.{Run, Error}
use recova.Constants.{StoppingRule, FailureClass}
use recova.Compliance.{Disposition}
use recova.Reply.Understanding.{ReplyReading}
use recova.Database.{Db, Txn}
use recova.Workflow.State.{RecoveryState, Deps}
use recova.Workflow.Nodes.{
  rule_value, act_on_verdict, screen_message, ingest, class_of_state, diagnose, wait,
}
use recova.Workflow.Execute.{execute}
use recova.Workflow.Graph.{
  reconcile, after_execute, from_execute, after_diagnose, after_ingest, invoke,
}
use recova.Workflow.Silence.{
  AtMostOneMore, Silent, Sends, Silent-pure, Silent-raise, Silent-bind, Silent-one_txn,
  Silent-set_current_state, Silent-record_audit, Silent-enqueue_escalation, Silent-finalize,
  Sends-after, Sends-before,
}
use recova.Workflow.Gates.{execute-sends_if_cleared}

Silent-value : (o : Option StoppingRule) → Silent (rule_value o)
Silent-value none = Silent-raise Error.attribute_error
Silent-value (some r) = Silent-pure r

Silent-class : (o : Option FailureClass) → Silent (class_of_state o)
Silent-class none = Silent-raise Error.key_error
Silent-class (some fc) = Silent-pure fc

Silent-if :
    {A : Type 0} (b : Bool) (m n : Run Db A) → Silent m → Silent n → Silent (if b then m else n)
Silent-if true m n hm hn = hm
Silent-if false m n hm hn = hn

ruleset silent_rules = (
  Silent-pure, Silent-raise, Silent-bind, Silent-one_txn, Silent-set_current_state,
  Silent-record_audit, Silent-enqueue_escalation, Silent-finalize, Silent-value, Silent-class,
  Silent-if,
)

act_on_verdict-Silent :
    (txn : Txn) (reading : ReplyReading) (d : Disposition) (s : RecoveryState)
    → Silent (act_on_verdict txn reading d s)
unfolding act_on_verdict
act_on_verdict-Silent txn reading Disposition.terminate s = search silent_rules
act_on_verdict-Silent txn reading Disposition.escalate s = search silent_rules
act_on_verdict-Silent txn reading Disposition.continue s = search silent_rules

screen_message-Silent :
    (deps : Deps) (txn : Txn) (o : Option Text) (s : RecoveryState)
    → Silent (screen_message deps txn o s)
unfolding screen_message
screen_message-Silent deps txn none s = search silent_rules
screen_message-Silent deps txn (some []) s = search silent_rules
screen_message-Silent deps txn (some (c ∷ m)) s = search act_on_verdict-Silent

ingest-Silent : (deps : Deps) (s : RecoveryState) → Silent (ingest deps s)
unfolding ingest
ingest-Silent deps s = search (silent_rules, screen_message-Silent)

diagnose-Silent : (deps : Deps) (s : RecoveryState) → Silent (diagnose deps s)
unfolding diagnose
diagnose-Silent deps s = search silent_rules

wait-Silent : (deps : Deps) (s : RecoveryState) → Silent (wait deps s)
unfolding wait
wait-Silent deps s = search silent_rules

after_execute-Silent : (deps : Deps) (s : RecoveryState) → Silent (after_execute deps s)
unfolding after_execute reconcile
after_execute-Silent deps s = search silent_rules

execute-Sends : (deps : Deps) (s : RecoveryState) → Sends (execute deps s)
execute-Sends deps s = record {
  at = λ db. elim (execute-sends_if_cleared deps s db) [
    | inl same ↦ inl same
    | inr (txn, p, call, found, cleared, sent) ↦ inr (call, sent)
  ];
}

from_execute-Sends : (deps : Deps) (s : RecoveryState) → Sends (from_execute deps s)
unfolding from_execute
from_execute-Sends deps s = Sends-before _ _ (execute-Sends deps s) (after_execute-Silent deps)

Sends-if : {A : Type 0} (b : Bool) (m n : Run Db A) → Sends m → Sends n → Sends (if b then m else n)
Sends-if true m n hm hn = hm
Sends-if false m n hm hn = hn

Silent→Sends : {A : Type 0} (m : Run Db A) → Silent m → Sends m
Silent→Sends m h = record { at = λ db. inl (h.at db) }

after_diagnose-Sends : (deps : Deps) (s : RecoveryState) → Sends (after_diagnose deps s)
unfolding after_diagnose
after_diagnose-Sends deps s =
    Sends-if _ _ _ (Sends-after _ _ (wait-Silent deps s) (from_execute-Sends deps))
      (from_execute-Sends deps s)

after_ingest-Sends : (deps : Deps) (s : RecoveryState) → Sends (after_ingest deps s)
unfolding after_ingest
after_ingest-Sends deps s =
    Sends-if _ _ _ (Silent→Sends _ (Silent-pure s))
      (Sends-after _ _ (diagnose-Silent deps s) (after_diagnose-Sends deps))

-- A run of the graph, whatever its state and its way through the nodes, makes one adapter call at
-- most.
pub invoke-single_call :
    (deps : Deps) (s : RecoveryState) (db : Db)
    → AtMostOneMore db.outbox (invoke deps s db).1.outbox
unfolding invoke
invoke-single_call deps s db =
    (Sends-after _ _ (ingest-Silent deps s) (after_ingest-Sends deps)).at db
