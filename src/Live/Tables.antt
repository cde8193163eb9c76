-- ===== src/Live/Tables.antt =====
-- What the operations on the payment tables and the calls do to the stage.
use recova.Prelude.{
  ℕ, ◌≡◌, refl, Bool, true, false, Option, List, [], ◌∷◌, arith, keep, is_some, if◌then◌else◌, any,
  subst,
}
use recova.Prelude.Outcome.{ok, err, Error}
use recova.Prelude.Steps.{Respects}
use recova.Database.{Txn, modify_txn}
use recova.Artifacts.{
  Artifact, Store, Providers, Terms, mint, minted_by, minted_metadata, close_messages, cancel_fails,
  is_prior,
}
use recova.Artifacts.Payment.{
  PolledStatus, settled, take_amount, is_settled, fully_paid, Poll, book, apply_to_case, reconcile,
  simulate_paid,
}
use recova.Thread.{ThreadRow}
use recova.Thread.Order.{IsNumbered, seqs_of}
use recova.Live.{Theatre, CallStatus}
use recova.Live.Turns.{add_call}
use recova.Live.Evolution.{Extended, Leaves, Evolves, unchanged_store, changed, aside}

-- The change of a payment, on the case of its artifact.
Extended-book : (a : Artifact) (store : Store) → Extended a.transaction_id store (book a store)
unfolding book apply_to_case
Extended-book a store = record {
  db = changed a.transaction_id (apply_to_case a) store.db (λ t. ground arith);
  numbered = λ h. h;
}

pub settled-transaction_id :
    (a : Artifact) (status : Option PolledStatus) (reported : Option ℕ)
    → (settled a status reported).transaction_id ≡ a.transaction_id
unfolding settled take_amount
settled-transaction_id a status reported = ground arith

pub Extended-reconcile :
    (poll : Poll) (a : Artifact) (store : Store)
    → Extended a.transaction_id store (reconcile poll a store).1
unfolding reconcile
Extended-reconcile poll a store = by_real (is_some a.provider_id) _ (settled-transaction_id a _ _)
  where
    by_real :
        (real : Bool) (b : Artifact)
        → b.transaction_id ≡ a.transaction_id
        → Leaves a.transaction_id store (if real then (ok b, book b store) else (ok a, store))
    by_real true b same = subst (λ k. Extended k store (book b store)) same (Extended-book b store)
    by_real false b same = unchanged_store a.transaction_id store

pub Extended-simulate_paid : (a : Artifact) → Respects (Extended a.transaction_id) (simulate_paid a)
unfolding simulate_paid
Extended-simulate_paid a = record { at = λ store. by_settled store (is_settled a.status) }
  where
    by_settled :
        (store : Store) (b : Bool)
        → Leaves a.transaction_id store (
            if b
            then (err Error.value_error, store)
            else (ok (fully_paid a), book (fully_paid a) store))
    by_settled store true = unchanged_store a.transaction_id store
    by_settled store false = Extended-book (fully_paid a) store

seqs_of-close_messages :
    (j key : ℕ) (closed : List Artifact) (ms : List ThreadRow)
    → seqs_of j (close_messages key closed ms) ≡ seqs_of j ms
unfolding seqs_of close_messages
seqs_of-close_messages j key closed [] = refl
seqs_of-close_messages j key closed (m ∷ rest) =
    ground (arith, seqs_of-close_messages j key closed rest)

close_messages-IsNumbered :
    (key : ℕ) (closed : List Artifact) (ms : List ThreadRow)
    → IsNumbered ms
    → IsNumbered (close_messages key closed ms)
close_messages-IsNumbered key closed ms h = record {
  dense = λ j. rw (seqs_of-close_messages j key closed ms) (h.dense j);
}

minted_metadata-transaction_id :
    (link : Option ℕ) (terms : Terms) (t : Txn)
    → (minted_metadata link terms t).transaction_id ≡ t.transaction_id
unfolding minted_metadata
minted_metadata-transaction_id link terms t = ground arith

pub Extended-mint :
    (p : Providers) (terms : Terms) (txn : Txn)
    → Respects (Extended txn.transaction_id) (mint p terms txn)
unfolding mint
Extended-mint p terms txn = record {
  at = λ store.
      by_cancel store (any (cancel_fails p) (keep (is_prior txn.transaction_id) store.artifacts)) _
        _ _ _;
}
  where
    by_cancel :
        (store : Store) (b : Bool) (a : Artifact) (rows closed : List Artifact) (next : ℕ)
        → Leaves txn.transaction_id store (
            if b then (err Error.name_error, store) else (
              ok a,
              record {
                db = record (store.db) {
                  transactions =
                      modify_txn txn.transaction_id
                        (minted_metadata (minted_by p terms.kind).0 terms)
                        store.db.transactions;
                };
                artifacts = rows;
                messages = close_messages txn.transaction_id closed store.messages;
                next_id = next;
              },
            ))
    by_cancel store true a rows closed next = unchanged_store txn.transaction_id store
    by_cancel store false a rows closed next = record {
      db = changed txn.transaction_id _ store.db (minted_metadata-transaction_id _ terms);
      numbered = close_messages-IsNumbered txn.transaction_id closed store.messages;
    }

-- A new call of the session.
pub Evolves-add_call :
    (θ : Theatre) (status : CallStatus) → Respects (Evolves θ.transaction_id) (add_call θ status)
unfolding add_call
Evolves-add_call θ status = record {
  at = λ stage. aside θ.transaction_id stage _ refl refl refl refl;
}
