-- ===== src/Database/Growth.antt =====
-- What a run on one case does to the database: it appends, and rewrites rows of that case alone.
use recova.Prelude.{ℕ, ◌≡◌, ◌≢◌, refl, Bool, true, false, Option, none, some, if◌then◌else◌}
use recova.Prelude.{Extends, Extends-refl, Extends-snoc, Extends-trans, ◌∙◌}
use recova.Prelude.Outcome.{Run, Result, ok, err, Error, pure, raise, ◌>>=◌}
use recova.Constants.{LifecycleState}
use recova.Database.{
  Txn, Db, AuditRow, Ticket, find_txn, with_state, one_txn, set_current_state, record_audit,
  enqueue_escalation,
}
use recova.Database.Rows.{find-modify_ne}

-- What a run on one case may do to the database: append to the audit trail, to the queue and to the
-- calls, and rewrite rows of that case alone.
pub record Grows (key : ℕ) (before after : Db) : Type 0 where
  pub audits : Extends before.audits after.audits
  pub escalations : Extends before.escalations after.escalations
  pub outbox : Extends before.outbox after.outbox
  pub others : (j : ℕ) → j ≢ key → find_txn j after.transactions ≡ find_txn j before.transactions

pub Grows-refl : (key : ℕ) (db : Db) → Grows key db db
Grows-refl key db = record {
  audits = Extends-refl db.audits;
  escalations = Extends-refl db.escalations;
  outbox = Extends-refl db.outbox;
  others = λ j ne. refl;
}

pub Grows-trans : (key : ℕ) (a b c : Db) → Grows key a b → Grows key b c → Grows key a c
Grows-trans key a b c g h = record {
  audits = Extends-trans a.audits b.audits c.audits g.audits h.audits;
  escalations = Extends-trans a.escalations b.escalations c.escalations g.escalations h.escalations;
  outbox = Extends-trans a.outbox b.outbox c.outbox g.outbox h.outbox;
  others = λ j ne. h.others j ne ∙ g.others j ne;
}

-- A call that only grows the database for one case, whether it returns or raises.
pub record Grown (key : ℕ) {A : Type 0} (m : Run Db A) : Type 0 where
  pub at : (db : Db) → Grows key db (m db).1

module _ {A : Type 0} (key : ℕ) where
  pub Grown-pure : (a : A) → Grown key (pure a)
  Grown-pure a = record { at = λ db. Grows-refl key db }

  pub Grown-raise : (e : Error) → Grown key (raise {A = A} e)
  Grown-raise e = record { at = λ db. Grows-refl key db }

  pub Grown-if :
      (b : Bool) (m n : Run Db A) → Grown key m → Grown key n → Grown key (if b then m else n)
  Grown-if true m n gm gn = gm
  Grown-if false m n gm gn = gn

module _ {A B : Type 0} (key : ℕ) where
  pub Grown-bind :
      (m : Run Db A) (f : A → Run Db B)
      → Grown key m
      → ((a : A) → Grown key (f a))
      → Grown key (m >>= f)
  Grown-bind m f gm gf = record { at = λ db. after db (m db).0 (m db).1 (gm.at db) }
    where
      after :
          (db : Db) (r : Result A) (db' : Db)
          → Grows key db db'
          → Grows key db
              (elim r as (λ _. Result B × Db) [ ok a ↦ f a db' | err e ↦ (err e, db') ]).1
      after db (ok a) db' g = Grows-trans key db db' (f a db').1 g ((gf a).at db')
      after db (err e) db' g = g

pub Grown-one_txn : (key j : ℕ) → Grown key (one_txn j)
unfolding one_txn
Grown-one_txn key j = record { at = λ db. found db (find_txn j db.transactions) }
  where
    found :
        (db : Db) (o : Option Txn)
        → Grows key db
            (elim o as (λ _. Result Txn × Db) [
              | none ↦ (err Error.no_result_found, db)
              | some t ↦ (ok t, db)
            ]).1
    found db none = Grows-refl key db
    found db (some t) = Grows-refl key db

pub Grown-set_current_state :
    (key : ℕ) (state : LifecycleState) → Grown key (set_current_state key state)
unfolding set_current_state
Grown-set_current_state key state = record {
  at = λ db. record {
    audits = Extends-refl db.audits;
    escalations = Extends-refl db.escalations;
    outbox = Extends-refl db.outbox;
    others = λ j ne. find-modify_ne j key (with_state state) db.transactions (λ t. refl) ne;
  };
}

pub Grown-record_audit : (key : ℕ) (row : AuditRow) → Grown key (record_audit row)
unfolding record_audit
Grown-record_audit key row = record {
  at = λ db. record {
    audits = Extends-snoc db.audits row;
    escalations = Extends-refl db.escalations;
    outbox = Extends-refl db.outbox;
    others = λ j ne. refl;
  };
}

pub Grown-enqueue_escalation : (key : ℕ) (ticket : Ticket) → Grown key (enqueue_escalation ticket)
unfolding enqueue_escalation
Grown-enqueue_escalation key ticket = record {
  at = λ db. record {
    audits = Extends-refl db.audits;
    escalations = Extends-snoc db.escalations ticket;
    outbox = Extends-refl db.outbox;
    others = λ j ne. refl;
  };
}

pub ruleset grown_rules = (
  Grown-pure, Grown-raise, Grown-if, Grown-bind, Grown-one_txn, Grown-set_current_state,
  Grown-record_audit, Grown-enqueue_escalation,
)
