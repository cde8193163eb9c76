-- ===== src/Artifacts.antt =====
-- Backend/application/operations/payment_artifacts.py and entities/payment_artifact.py: the links and
-- codes that are minted for a case; `Payment` has what their payments do to the case. What the
-- providers answer is an argument. A raise drops what the session had not committed. The addresses
-- and the descriptions of an artifact are left out.
pub mod Payment
pub mod Ledger
use recova.Prelude.{
  ℕ, suc, ◌+◌, ◌-◌, Bool, true, false, ◌&&◌, ◌||◌, not, Option, none, some, List, [], ◌∷◌, ◌++◌,
  ltb, leb, ◌==◌, any, keep, is_some, or_else, if◌then◌else◌,
}
use recova.Prelude.Outcome.{Run, Result, ok, err, pure, raise, value_error, name_error}
use recova.Constants.{LifecycleState, ArtifactKind, ArtifactStatus}
use recova.Dates.{Moment}
use recova.Thread.{ThreadRow}
use recova.Database.{Metadata, Txn, Db, find_txn, modify_txn}

pub data Detail : Type 0 where
  mcp sdk simulated : Detail

-- `PaymentArtifact`
pub record Artifact : Type 0 where
  pub id : ℕ
  pub transaction_id : ℕ
  pub kind : ArtifactKind
  pub provider_id : Option ℕ
  pub amount_minor : ℕ
  pub accept_partial : Bool
  pub first_min_partial_minor : Option ℕ
  pub deadline : Option Moment
  pub status : ArtifactStatus
  pub amount_paid_minor : ℕ
  pub simulated : Bool
  pub detail : Detail
  pub followed_up_at : Option Moment

-- The tables that payments touch; `next_id` is the key that the database gives next.
pub record Store : Type 0 where
  pub db : Db
  pub artifacts : List Artifact
  pub messages : List ThreadRow
  pub next_id : ℕ

-- What the providers do during one `mint`: the ids they return, if any, whether keys are
-- configured, and which cancellations they accept.
pub record Providers : Type 0 where
  pub mcp_id : Option ℕ
  pub sdk_id : Option ℕ
  pub have_keys : Bool
  pub cancels : ℕ → Bool

abbrev pub is_qr : ArtifactKind → Bool
is_qr ArtifactKind.qr = true
is_qr _ = false

-- the precedence MCP, SDK, simulated; the id is `none` on a simulated artifact
unfoldable pub minted_by : Providers → ArtifactKind → Option ℕ × Detail
minted_by p kind = elim p.mcp_id [
  | some id ↦ (some id, Detail.mcp)
  | none ↦ elim (if not (is_qr kind) && p.have_keys then p.sdk_id else none) [
    | some id ↦ (some id, Detail.sdk)
    | none ↦ (none, Detail.simulated)
  ]
]

abbrev pub is_created : ArtifactStatus → Bool
is_created ArtifactStatus.created = true
is_created _ = false

-- the filter of `prior_active`
abbrev pub is_prior : ℕ → Artifact → Bool
is_prior key a = a.transaction_id == key && is_created a.status

-- `logger.warning` on a refused cancellation, where `logger` is not defined
unfoldable pub cancel_fails : Providers → Artifact → Bool
cancel_fails p a = elim a.provider_id [
  | none ↦ false
  | some id ↦ not a.simulated && p.have_keys && not (p.cancels id)
]

-- the loop over `prior_active`
unfoldable pub close_prior : ℕ → List Artifact → List Artifact
close_prior key [] = []
close_prior key (a ∷ rest) =
    (if is_prior key a then record a { status = ArtifactStatus.closed } else a)
    ∷ close_prior key rest

abbrev pub has_id : ℕ → Artifact → Bool
has_id n a = a.id == n

abbrev pub carries_closed : List Artifact → Option (ℕ × ArtifactStatus) → Bool
carries_closed closed none = false
carries_closed closed (some (n, _)) = any (has_id n) closed

abbrev pub with_status_closed : Option (ℕ × ArtifactStatus) → Option (ℕ × ArtifactStatus)
with_status_closed none = none
with_status_closed (some (n, _)) = some (n, ArtifactStatus.closed)

-- the loop over the messages of the case
unfoldable pub close_messages : ℕ → List Artifact → List ThreadRow → List ThreadRow
close_messages key closed [] = []
close_messages key closed (m ∷ rest) =
    (if m.transaction_id == key && carries_closed closed m.artifact
      then record m { artifact = with_status_closed m.artifact }
      else m)
    ∷ close_messages key closed rest

-- the keyword arguments of `mint`
pub record Terms : Type 0 where
  pub kind : ArtifactKind
  pub amount_minor : ℕ
  pub accept_partial : Bool
  pub first_min_partial_minor : Option ℕ
  pub deadline : Option Moment

abbrev pub deadline_or : Option Moment → Option Moment → Option Moment
deadline_or none old = old
deadline_or (some d) old = some d

-- the metadata that `mint` writes
unfoldable pub minted_metadata : Option ℕ → Terms → Txn → Txn
minted_metadata link terms t =
    let m = record (t.metadata) { payment_link_id = link } in
    if terms.accept_partial
    then record t {
      metadata = record m {
        balance_due_minor = some (t.amount_minor - terms.amount_minor);
        balance_deadline = deadline_or terms.deadline t.metadata.balance_deadline;
      };
    }
    else record t { metadata = m }

abbrev pub is_simulated : Option ℕ → Bool
is_simulated none = true
is_simulated (some _) = false

-- the row that `mint` adds
unfoldable pub new_artifact : Providers → Terms → ℕ → ℕ → Artifact
new_artifact p terms id key =
    let (provider_id, detail) = minted_by p terms.kind in
    record {
      id = id;
      transaction_id = key;
      kind = terms.kind;
      provider_id = provider_id;
      amount_minor = terms.amount_minor;
      accept_partial = terms.accept_partial;
      first_min_partial_minor = terms.first_min_partial_minor;
      deadline = terms.deadline;
      status = ArtifactStatus.created;
      amount_paid_minor = 0;
      simulated = is_simulated provider_id;
      detail = detail;
      followed_up_at = none;
    }

unfoldable pub mint : Providers → Terms → Txn → Run Store Artifact
mint p terms txn store =
    let prior = keep (is_prior txn.transaction_id) store.artifacts in
    if any (cancel_fails p) prior then (err name_error, store) else (
      ok (new_artifact p terms store.next_id txn.transaction_id),
      record store {
        db = record (store.db) {
          transactions =
              modify_txn txn.transaction_id (minted_metadata (minted_by p terms.kind).0 terms)
                store.db.transactions;
        };
        artifacts =
            close_prior txn.transaction_id store.artifacts
            ++ new_artifact p terms store.next_id txn.transaction_id ∷ [];
        messages = close_messages txn.transaction_id prior store.messages;
        next_id = suc store.next_id;
      },
    )
