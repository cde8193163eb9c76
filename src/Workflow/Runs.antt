-- ===== src/Workflow/Runs.antt =====
-- Whole runs of the graph on a reply that halts the case.
use recova.Prelude.{ℕ, ◌≡◌, ◌≢◌, refl, true, Option, none, some, ◌∷◌, is_some, or_else, ◌∙◌}
use recova.Prelude.Text.{Text}
use recova.Prelude.Outcome.{Run, Result, ok, err, Error, pure, ◌>>=◌}
use recova.Constants.{StoppingRule}
use recova.Compliance.{Disposition}
use recova.Reply.Understanding.{ReplyReading}
use recova.Database.{Db, Txn}
use recova.Workflow.State.{RecoveryState, Deps}
use recova.Workflow.Nodes.{rule_value, act_on_verdict, reader, screen_message, ingest}
use recova.Workflow.Graph.{after_ingest, invoke}
use recova.Workflow.Silence.{
  Silent, Silent-one_txn, Silent-set_current_state, Silent-record_audit, Silent-finalize,
  Silent-enqueue_escalation, Silent-pure, Silent-raise,
}

-- What a halting step leaves: a disposition, or an error, and no call.
abbrev pub HaltedAt : Db → Result RecoveryState × Db → Type 0
HaltedAt db (ok s, db') = (is_some s.disposition ≡ true) × (db'.outbox ≡ db.outbox)
HaltedAt db (err e, db') = db'.outbox ≡ db.outbox

record Halts (m : Run Db RecoveryState) : Type 0 where
  at : (db : Db) → HaltedAt db (m db)

Halts-pure : (s : RecoveryState) → is_some s.disposition ≡ true → Halts (pure s)
Halts-pure s h = record { at = λ db. (h, refl) }

halted_later :
    (a b : Db) (r : Result RecoveryState × Db) → b.outbox ≡ a.outbox → HaltedAt b r → HaltedAt a r
halted_later a b (ok s, c) e (h, k) = (h, k ∙ e)
halted_later a b (err x, c) e k = k ∙ e

Halts-bind :
    {A : Type 0} (m : Run Db A) (f : A → Run Db RecoveryState)
    → Silent m
    → ((a : A) → Halts (f a))
    → Halts (m >>= f)
Halts-bind {A} m f h g = record { at = λ db. after db (m db).0 (m db).1 (h.at db) }
  where
    after :
        (db : Db) (r : Result A) (db' : Db)
        → db'.outbox ≡ db.outbox
        → HaltedAt db
            (elim r as (λ _. Result RecoveryState × Db) [ ok a ↦ f a db' | err e ↦ (err e, db') ])
    after db (ok a) db' e = halted_later db db' (f a db') e ((g a).at db')
    after db (err x) db' e = e

Silent-rule_value : (o : Option StoppingRule) → Silent (rule_value o)
Silent-rule_value none = Silent-raise Error.attribute_error
Silent-rule_value (some r) = Silent-pure r

ruleset halt_rules = (
  Halts-pure, Halts-bind, Silent-one_txn, Silent-set_current_state, Silent-record_audit,
  Silent-finalize, Silent-enqueue_escalation, Silent-rule_value, refl,
)

act_on_verdict-Halts :
    (txn : Txn) (reading : ReplyReading) (d : Disposition) (s : RecoveryState)
    → d ≢ Disposition.continue
    → Halts (act_on_verdict txn reading d s)
unfolding act_on_verdict
act_on_verdict-Halts txn reading Disposition.terminate s h = search halt_rules
act_on_verdict-Halts txn reading Disposition.escalate s h = search halt_rules
act_on_verdict-Halts txn reading Disposition.continue s h = elim (h refl) [ ]

-- The reading of a message in a run.
abbrev pub reading_of : Deps → RecoveryState → Text → ReplyReading
reading_of deps s message = reader deps.read_reply message (or_else s.now_ist deps.clock).date

screened-Halts :
    (deps : Deps) (txn : Txn) (o : Option Text) (c : ℕ) (m : Text) (s : RecoveryState)
    → o ≡ some (c ∷ m)
    → (reading_of deps s (c ∷ m)).verdict.disposition ≢ Disposition.continue
    → Halts (screen_message deps txn o s)
unfolding screen_message
screened-Halts deps txn o c m s e h = rw e (act_on_verdict-Halts txn _ _ s h)

ingest-Halts :
    (deps : Deps) (s : RecoveryState) (c : ℕ) (m : Text)
    → s.user_message ≡ some (c ∷ m)
    → (reading_of deps s (c ∷ m)).verdict.disposition ≢ Disposition.continue
    → Halts (ingest deps s)
unfolding ingest
ingest-Halts deps s c m e h = Halts-bind _ _ (Silent-one_txn s.transaction_id) λ txn.
    Halts-bind _ _ (Silent-set_current_state _ _) λ _.
      Halts-bind _ _ (Silent-record_audit _) λ _. screened-Halts deps txn s.user_message c m s e h

-- A graph run on a nonempty reply whose verdict is not CONTINUE makes no adapter call, and ends
-- with a disposition or an error.
pub invoke-halts :
    (deps : Deps) (s : RecoveryState) (c : ℕ) (m : Text) (db : Db)
    → s.user_message ≡ some (c ∷ m)
    → (reading_of deps s (c ∷ m)).verdict.disposition ≢ Disposition.continue
    → HaltedAt db (invoke deps s db)
unfolding invoke after_ingest
invoke-halts deps s c m db e h =
    after (ingest deps s db).0 (ingest deps s db).1 ((ingest-Halts deps s c m e h).at db)
  where
    after :
        (r : Result RecoveryState) (db' : Db)
        → HaltedAt db (r, db')
        → HaltedAt db (elim r as (λ _. Result RecoveryState × Db) [
          | ok s' ↦ after_ingest deps s' db'
          | err x ↦ (err x, db')
        ])
    after (ok s') db' (halted, e) = rw halted (halted, e)
    after (err x) db' e = e
