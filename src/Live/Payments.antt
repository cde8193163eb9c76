-- ===== src/Live/Payments.antt =====
-- live_session.py: `_announce_payment` and the three ways in which a payment is noticed:
-- `_reconcile_pending`, `check_latest_payment_status` and `simulate_payment`. A poll's answer is an
-- argument.
use recova.Prelude.{
  ℕ, ◌/◌, Bool, true, false, ◌&&◌, ◌||◌, not, Option, none, some, List, [], ◌∷◌, ◌==◌, is_some,
  keep, or_else, if◌then◌else◌,
}
use recova.Prelude.Outcome.{Run, ok, pure, raise, key_error, ◌>>=◌, ◌>>◌}
use recova.Constants.{LifecycleState, NodeName, ActionType, Outcome, ArtifactStatus}
use recova.Database.{Txn, AuditRow, Event, Entry, record_audit}
use recova.Artifacts.{Artifact}
use recova.Artifacts.Payment.{Poll, reconcile, simulate_paid}
use recova.Sweeper.{is_open_status}
use recova.Thread.{Direction, Sender, Body}
use recova.Live.{Stage, Theatre, emit, on_db, on_store, current_txn, post}
use recova.Live.Events.{LiveEvent}
use recova.Live.Turns.{emit_bounds}
use recova.Live.Decisions.{finish}

-- the branches of `_announce_payment` on the status, with the sums as they are printed: the paid
-- amount divided by 100, the balance as it is stored
unfoldable pub payment_body : Artifact → Txn → Option Body
payment_body a txn =
    let paid_now = a.amount_paid_minor / 100 in
    elim a.status [
      | ArtifactStatus.paid ↦ some (
          if a.accept_partial
          then Body.balance_cleared paid_now
          else Body.payment_received paid_now)
      | ArtifactStatus.partially_paid ↦
          some (Body.payment_in_part paid_now (or_else txn.metadata.balance_due_minor 0))
      | _ ↦ none
    ]

abbrev pub payment_audit : Theatre → Artifact → AuditRow
payment_audit θ a = record {
  transaction_id = θ.transaction_id;
  node_name = NodeName.reconcile;
  action_type = ActionType.state_transition;
  payload =
      Entry.event Event.payment_reconciled
      ∷ Entry.artifact_id a.id
      ∷ Entry.artifact_status a.status
      ∷ Entry.amount_paid_minor a.amount_paid_minor
      ∷ [];
  outcome = Outcome.success;
}

-- the end of `_announce_payment`, whether the session is terminal and on the refreshed case
unfoldable pub report_state : Theatre → Bool → LifecycleState → Run Stage (Unit {0})
report_state θ true state = pure tt
report_state θ false LifecycleState.recovered = finish θ LifecycleState.recovered none
report_state θ false state = do emit_bounds θ none; emit (LiveEvent.status state)

unfoldable pub report_payment : Theatre → Txn → Run Stage (Unit {0})
report_payment θ txn stage = report_state θ stage.session.terminal txn.current_state stage

unfoldable pub after_payment : Theatre → Run Stage (Unit {0})
after_payment θ = do txn ← current_txn θ; report_payment θ txn

abbrev pub announce_body : Theatre → Artifact → Option Body → Run Stage (Unit {0})
announce_body θ a none = pure tt
announce_body θ a (some body) = do
  post θ Direction.outbound Sender.system body (some a)
  emit (LiveEvent.artifact a)
  on_db (record_audit (payment_audit θ a))
  after_payment θ

-- `_announce_payment`
unfoldable pub announce_payment : Theatre → Artifact → Run Stage (Unit {0})
announce_payment θ a stage =
    if stage.session.closed
    then (ok tt, stage)
    else (current_txn θ >>= λ txn. announce_body θ a (payment_body a txn)) stage

abbrev pub same_status : ArtifactStatus → ArtifactStatus → Bool
same_status ArtifactStatus.created ArtifactStatus.created = true
same_status ArtifactStatus.paid ArtifactStatus.paid = true
same_status ArtifactStatus.partially_paid ArtifactStatus.partially_paid = true
same_status ArtifactStatus.expired ArtifactStatus.expired = true
same_status ArtifactStatus.closed ArtifactStatus.closed = true
same_status _ _ = false

-- `artifact.status != before_status or artifact.amount_paid_minor != before_paid`
abbrev pub is_changed : Artifact → Artifact → Bool
is_changed before after =
    not (same_status after.status before.status)
    || not (after.amount_paid_minor == before.amount_paid_minor)

-- `reconcile`, and the announcement if it changed something
unfoldable pub reconcile_and_announce : Theatre → Poll → Artifact → Run Stage Artifact
reconcile_and_announce θ poll a = do
  polled ← on_store (reconcile poll a)
  if is_changed a polled then announce_payment θ polled else pure tt
  pure polled

-- the loop of `_reconcile_pending`
unfoldable pub reconcile_each : Theatre → (Artifact → Poll) → List Artifact → Run Stage (Unit {0})
reconcile_each θ poll [] stage = (ok tt, stage)
reconcile_each θ poll (a ∷ rest) stage =
    if stage.session.terminal
    then (ok tt, stage)
    else (reconcile_and_announce θ (poll a) a >> reconcile_each θ poll rest) stage

abbrev pub is_pending : Theatre → Artifact → Bool
is_pending θ a =
    a.transaction_id == θ.transaction_id && (is_some a.provider_id && is_open_status a.status)

-- `_reconcile_pending`
unfoldable pub reconcile_pending : Theatre → (Artifact → Poll) → Run Stage (Unit {0})
reconcile_pending θ poll stage =
    reconcile_each θ poll (keep (is_pending θ) stage.store.artifacts) stage

-- the row of the case with the highest id; the ids of the table increase
unfoldable pub latest_of : ℕ → Option Artifact → List Artifact → Option Artifact
latest_of key best [] = best
latest_of key best (a ∷ rest) =
    latest_of key (if a.transaction_id == key then some a else best) rest

abbrev pub check_found : Theatre → (Artifact → Poll) → Option Artifact → Run Stage (Option Artifact)
check_found θ poll none = pure none
check_found θ poll (some a) =
    if is_some a.provider_id
    then (do b ← reconcile_and_announce θ (poll a) a; pure (some b))
    else pure (some a)

-- `check_latest_payment_status`
unfoldable pub check_latest_payment_status :
    Theatre → (Artifact → Poll) → Run Stage (Option Artifact)
check_latest_payment_status θ poll stage =
    check_found θ poll (latest_of θ.transaction_id none stage.store.artifacts) stage

-- `filter_by(id=..., transaction_id=...).one_or_none()`
unfoldable pub find_artifact : ℕ → ℕ → List Artifact → Option Artifact
find_artifact id key [] = none
find_artifact id key (a ∷ rest) =
    if a.id == id && a.transaction_id == key then some a else find_artifact id key rest

abbrev pub simulate_found : Theatre → Option Artifact → Run Stage Artifact
simulate_found θ none = raise key_error
simulate_found θ (some a) = do paid ← on_store (simulate_paid a); announce_payment θ paid; pure paid

-- `simulate_payment`; a `LookupError` is raised as the key error
unfoldable pub simulate_payment : Theatre → ℕ → Run Stage Artifact
simulate_payment θ id stage =
    simulate_found θ (find_artifact id θ.transaction_id stage.store.artifacts) stage
