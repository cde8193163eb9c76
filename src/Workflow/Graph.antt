-- ===== src/Workflow/Graph.antt =====
-- workflow_nodes.py: the node reconcile and the routes; recovery_graph.py: the edges.
use recova.Prelude.{Bool, true, false, ◌||◌, Option, none, some, [], ◌∷◌, is_some, if◌then◌else◌}
use recova.Prelude.Text.{Text, codes, same_text}
use recova.Prelude.Outcome.{Run, pure, ◌>>=◌, ◌>>◌}
use recova.Constants.{LifecycleState, NodeName, Outcome, Playbook}
use recova.Database.{Db, Event, Entry, record_audit}
use recova.Workflow.State.{PlaybookName, RecoveryState, Deps}
use recova.Workflow.Nodes.{finalize, transition, ingest, diagnose, wait}
use recova.Workflow.Execute.{execute}

-- `_RECOVERY_OUTCOMES`
abbrev pub is_recovery_outcome : Option Text → Bool
is_recovery_outcome none = false
is_recovery_outcome (some e) =
    same_text e (codes "payment.captured") || same_text e (codes "payment.authorized")

unfoldable pub reconcile : Deps → RecoveryState → Run Db RecoveryState
reconcile deps s =
    if is_recovery_outcome s.outcome_event
    then (do
      finalize s.transaction_id LifecycleState.recovered NodeName.reconcile
          (Entry.outcome_event s.outcome_event ∷ Entry.disposition LifecycleState.recovered ∷ [])
          Outcome.success
      pure (record s { disposition = some LifecycleState.recovered }))
    else (do
      record_audit (
          transition s.transaction_id NodeName.reconcile
            (Entry.event Event.awaiting_outcome ∷ Entry.outcome_event s.outcome_event ∷ []))
      pure (record s { disposition = none }))

abbrev pub is_salary_sequencer : Option PlaybookName → Bool
is_salary_sequencer (some (PlaybookName.known Playbook.salary_cycle_sequencer)) = true
is_salary_sequencer _ = false

-- `route_after_execute`
unfoldable pub after_execute : Deps → RecoveryState → Run Db RecoveryState
after_execute deps s = if is_some s.disposition then pure s else reconcile deps s

unfoldable pub from_execute : Deps → RecoveryState → Run Db RecoveryState
from_execute deps s = execute deps s >>= after_execute deps

-- `route_after_diagnose`
unfoldable pub after_diagnose : Deps → RecoveryState → Run Db RecoveryState
after_diagnose deps s =
    if is_salary_sequencer s.playbook
    then wait deps s >>= from_execute deps
    else from_execute deps s

-- `route_after_ingest`
unfoldable pub after_ingest : Deps → RecoveryState → Run Db RecoveryState
after_ingest deps s =
    if is_some s.disposition then pure s else (diagnose deps s >>= after_diagnose deps)

-- `build_recovery_graph(deps).invoke(state)`
unfoldable pub invoke : Deps → RecoveryState → Run Db RecoveryState
invoke deps s = ingest deps s >>= after_ingest deps
