-- ===== src/Artifacts/Payment.antt =====
-- Backend/application/operations/payment_artifacts.py: `_apply_txn_state`, `reconcile` and
-- `simulate_paid`.
use recova.Prelude.{
  ℕ, ◌-◌, Bool, true, false, ◌&&◌, not, Option, none, some, List, [], ◌∷◌, ltb, leb, ◌==◌, is_some,
  or_else, if◌then◌else◌,
}
use recova.Prelude.Outcome.{Run, ok, err, value_error}
use recova.Constants.{LifecycleState, ArtifactKind, ArtifactStatus}
use recova.Database.{Txn, modify_txn}
use recova.Artifacts.{Artifact, Store, is_qr}

-- `txn.current_state in _CLOSED`
abbrev pub is_closed_case : LifecycleState → Bool
is_closed_case LifecycleState.escalated = true
is_closed_case LifecycleState.cancelled = true
is_closed_case _ = false

abbrev pub is_paid : ArtifactStatus → Bool
is_paid ArtifactStatus.paid = true
is_paid _ = false

abbrev pub is_partially_paid : ArtifactStatus → Bool
is_partially_paid ArtifactStatus.partially_paid = true
is_partially_paid _ = false

-- what `_apply_txn_state` does to the row of the case
unfoldable pub apply_to_case : Artifact → Txn → Txn
apply_to_case a t =
    let balance = t.amount_minor - a.amount_paid_minor in
    let booked = record t { metadata = record (t.metadata) { balance_due_minor = some balance } } in
    if a.accept_partial
    then (if balance == 0
        then record booked { current_state = LifecycleState.recovered }
        else if is_partially_paid a.status && not (is_closed_case t.current_state)
        then record booked { current_state = LifecycleState.waiting }
        else booked)
    else if is_paid a.status && not (is_closed_case t.current_state)
    then record t { current_state = LifecycleState.recovered }
    else t

-- The table with one artifact's row replaced.
unfoldable pub put_artifact : Artifact → List Artifact → List Artifact
put_artifact a [] = []
put_artifact a (b ∷ rest) = (if b.id == a.id then a else b) ∷ put_artifact a rest

-- the commit of an artifact, then `_apply_txn_state`
unfoldable pub book : Artifact → Store → Store
book a store = record store {
  artifacts = put_artifact a store.artifacts;
  db = record (store.db) {
    transactions = modify_txn a.transaction_id (apply_to_case a) store.db.transactions;
  };
}

pub data PolledStatus : Type 0 where
  paid expired other : PolledStatus

-- What a provider reports of an artifact; the amounts it reports are not negative.
pub record Report : Type 0 where
  pub status : Option PolledStatus
  pub amount_paid : Option ℕ

-- One poll: the answers of MCP and of the SDK, if there are any, and whether keys are configured.
pub record Poll : Type 0 where
  pub mcp : Option Report
  pub sdk : Option Report
  pub have_keys : Bool

abbrev pub no_report : Report
no_report = record { status = none; amount_paid = none }

-- the two fetches of `reconcile`
unfoldable pub polled : Poll → ArtifactKind → Report
polled poll kind =
    let first = or_else poll.mcp no_report in
    if not (is_some first.status) && not (is_qr kind) && poll.have_keys
    then elim poll.sdk [
      | none ↦ record { status = none; amount_paid = first.amount_paid }
      | some r ↦ r
    ]
    else first

abbrev pub fully_paid : Artifact → Artifact
fully_paid a = record a { status = ArtifactStatus.paid; amount_paid_minor = a.amount_minor }

-- the part of `reconcile` on an amount, when the status is not paid
unfoldable pub take_amount : Artifact → ℕ → Artifact
take_amount a n = record a {
  amount_paid_minor = n;
  status = if leb a.amount_minor n then ArtifactStatus.paid else ArtifactStatus.partially_paid;
}

abbrev pub expire : Artifact → Option PolledStatus → Artifact
expire a (some PolledStatus.expired) = record a { status = ArtifactStatus.expired }
expire a _ = a

-- the statuses of `reconcile`
unfoldable pub settled : Artifact → Option PolledStatus → Option ℕ → Artifact
settled a (some PolledStatus.paid) amount_paid = fully_paid a
settled a status none = expire a status
settled a status (some n) = if ltb 0 n then take_amount a n else expire a status

unfoldable pub reconcile : Poll → Artifact → Run Store Artifact
reconcile poll a store =
    if is_some a.provider_id
    then (let r = polled poll a.kind in
        let b = settled a r.status r.amount_paid in (ok b, book b store))
    else (ok a, store)

-- `artifact.status in {PAID, EXPIRED}`
abbrev pub is_settled : ArtifactStatus → Bool
is_settled ArtifactStatus.paid = true
is_settled ArtifactStatus.expired = true
is_settled _ = false

unfoldable pub simulate_paid : Artifact → Run Store Artifact
simulate_paid a store =
    if is_settled a.status
    then (err value_error, store)
    else (ok (fully_paid a), book (fully_paid a) store)
