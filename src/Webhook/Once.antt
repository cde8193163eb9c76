-- ===== src/Webhook/Once.antt =====
-- A gateway event is handled once, and touches its own case alone.
use recova.Prelude.{
  ℕ, ◌≡◌, ◌≢◌, refl, true, false, Option, none, some, List, [], ◌∷◌, ◌++◌, arith, any, any-append,
  Extends-refl, Bool-cases, Option-cases, subst, sym, inl, inr,
}
use recova.Prelude.Outcome.{Result, ok}
use recova.Constants.{FailureClass}
use recova.Classifier.{classify}
use recova.Database.{Txn, Db, find_txn, modify_txn}
use recova.Database.Rows.{find-modify_ne}
use recova.Database.Growth.{Grows, Grows-refl, Grown, grown_rules}
use recova.Workflow.State.{Deps}
use recova.Workflow.Frame.{invoke-Grows}
use recova.Workflow.Graph.{invoke}
use recova.Webhook.{
  Delivery, Verifier, Intake, Response, signature_is_valid, event_id_of, is_event, claim_event,
  transaction_id_of, new_case, with_class, upsert_case, initial_state, run_event, process_event,
  ingest_claimed, ingest_razorpay_event,
}

claim-claimed : (id : ℕ) (events : List ℕ) → any (is_event id) (claim_event id events).1 ≡ true
unfolding claim_event
claim-claimed id events = elim (Bool-cases (any (is_event id) events)) [
  | inl old ↦ rw old old
  | inr fresh ↦ rw (fresh, any-append (is_event id) events (id ∷ [])) (ground arith)
]

claim-again :
    (id : ℕ) (events : List ℕ)
    → any (is_event id) events ≡ true
    → claim_event id events ≡ (false, events)
unfolding claim_event
claim-again id events h = rw h refl

ingest-claims :
    (deps : Deps) (q : Delivery) (id : ℕ) (s : Intake)
    → (ingest_claimed deps q id s).1.events ≡ (claim_event id s.events).1
unfolding ingest_claimed
ingest-claims deps q id s = elim (Bool-cases (claim_event id s.events).0) [
  | inl first ↦ rw first refl
  | inr repeated ↦ rw repeated refl
]

ingest-repeated :
    (deps : Deps) (q : Delivery) (id : ℕ) (s : Intake)
    → any (is_event id) s.events ≡ true
    → ingest_claimed deps q id s ≡ (ok (Response.duplicate id), s)
unfolding ingest_claimed
ingest-repeated deps q id s h = rw (claim-again id s.events h) refl

ingest-accepted :
    (v : Verifier) (deps : Deps) (q : Delivery) (id : ℕ) (s : Intake)
    → signature_is_valid v q.raw_body q.signature ≡ true
    → event_id_of q ≡ some id
    → ingest_razorpay_event v deps q s ≡ ingest_claimed deps q id s
unfolding ingest_razorpay_event
ingest-accepted v deps q id s signed named = rw (signed, named) refl

-- After a signed delivery with an event id was handled, to whatever end, every signed delivery
-- with that event id is answered as a duplicate and changes nothing.
pub ingest-once :
    (v : Verifier) (deps : Deps) (q again : Delivery) (id : ℕ) (s : Intake)
    → signature_is_valid v q.raw_body q.signature ≡ true
    → signature_is_valid v again.raw_body again.signature ≡ true
    → event_id_of q ≡ some id
    → event_id_of again ≡ some id
    → ingest_razorpay_event v deps again (ingest_razorpay_event v deps q s).1
      ≡ (ok (Response.duplicate id), (ingest_razorpay_event v deps q s).1)
ingest-once v deps q again id s signed signed' named named' =
    rw
      (
        ingest-accepted v deps q id s signed named,
        ingest-accepted v deps again id (ingest_claimed deps q id s).1 signed' named',
      )
      (ingest-repeated deps again id (ingest_claimed deps q id s).1 (
        subst (λ e. any (is_event id) e ≡ true) (sym (ingest-claims deps q id s))
          (claim-claimed id s.events)))

find-append :
    (j : ℕ) (ts : List Txn) (t : Txn)
    → t.transaction_id ≢ j
    → find_txn j (ts ++ t ∷ []) ≡ find_txn j ts
unfolding find_txn
find-append j [] t ne = ground arith
find-append j (x ∷ ts) t ne = ground (arith, find-append j ts t ne)

Grown-upsert_case :
    (q : Delivery) (fc : FailureClass) → Grown (transaction_id_of q) (upsert_case q fc)
unfolding upsert_case
Grown-upsert_case q fc = record {
  at = λ db. found db (find_txn (transaction_id_of q) db.transactions);
}
  where
    found :
        (db : Db) (o : Option Txn)
        → Grows
            (transaction_id_of q)
            db
            (elim o as (λ _. Result (Unit {0}) × Db) [
              | none ↦ (ok tt, record db { transactions = db.transactions ++ new_case q fc ∷ [] })
              | some _ ↦ (
                ok tt,
                record db {
                  transactions = modify_txn (transaction_id_of q) (with_class fc) db.transactions;
                },
              )
            ]).1
    found db none = record {
      audits = Extends-refl db.audits;
      escalations = Extends-refl db.escalations;
      outbox = Extends-refl db.outbox;
      others = λ j ne. find-append j db.transactions (new_case q fc) (λ e. ne (sym e));
    }
    found db (some t) = record {
      audits = Extends-refl db.audits;
      escalations = Extends-refl db.escalations;
      outbox = Extends-refl db.outbox;
      others = λ j ne.
          find-modify_ne j (transaction_id_of q) (with_class fc) db.transactions (λ t. refl) ne;
    }

Grown-invoke :
    (deps : Deps) (q : Delivery) → Grown (transaction_id_of q) (invoke deps (initial_state q))
Grown-invoke deps q = record { at = λ db. invoke-Grows deps (initial_state q) db }

run_event-Grown :
    (deps : Deps) (q : Delivery) (fc : FailureClass)
    → Grown (transaction_id_of q) (run_event deps q fc)
unfolding run_event
run_event-Grown deps q fc = search (grown_rules, Grown-upsert_case, Grown-invoke)

process_event-Grows :
    (deps : Deps) (q : Delivery) (db : Db)
    → Grows (transaction_id_of q) db (process_event deps q db).1
unfolding process_event
process_event-Grows deps q db = elim (Option-cases (classify q.event_type q.error_code)) [
  | inl unmapped ↦ rw (unmapped, process_event) (Grows-refl (transaction_id_of q) db)
  | inr (fc, mapped) ↦ rw (mapped, process_event) ((run_event-Grown deps q fc).at db)
]

claimed-Grows :
    (deps : Deps) (q : Delivery) (id : ℕ) (s : Intake)
    → Grows (transaction_id_of q) s.db (ingest_claimed deps q id s).1.db
unfolding ingest_claimed
claimed-Grows deps q id s = elim (Bool-cases (claim_event id s.events).0) [
  | inl first ↦ rw first (process_event-Grows deps q s.db)
  | inr repeated ↦ rw repeated (Grows-refl (transaction_id_of q) s.db)
]

-- A delivery, whatever comes of it, only appends to the audit trail, the tickets and the calls,
-- and changes no row of a case other than the one it names.
pub ingest-Grows :
    (v : Verifier) (deps : Deps) (q : Delivery) (s : Intake)
    → Grows (transaction_id_of q) s.db (ingest_razorpay_event v deps q s).1.db
unfolding ingest_razorpay_event
ingest-Grows v deps q s = elim (Bool-cases (signature_is_valid v q.raw_body q.signature)) [
  | inr forged ↦ rw forged (Grows-refl (transaction_id_of q) s.db)
  | inl signed ↦ elim (Option-cases (event_id_of q)) [
    | inl unnamed ↦
        rw (signed, unnamed, ingest_razorpay_event) (Grows-refl (transaction_id_of q) s.db)
    | inr (id, named) ↦ rw (ingest-accepted v deps q id s signed named) (claimed-Grows deps q id s)
  ]
]
