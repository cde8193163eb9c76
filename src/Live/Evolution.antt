-- ===== src/Live/Evolution.antt =====
-- What a request of a session may do to the stage: its case alone is written, the thread stays
-- numbered, flags stay set, and a closed session shows nothing.
use recova.Prelude.{
  ℕ, ◌≡◌, refl, ap, ◌∙◌, Bool, true, false, Option, none, some, [], ◌∷◌, ◌++◌, arith, keep,
  keep-append, is_some, Extends-refl, append-nil, if◌then◌else◌,
}
use recova.Prelude.Outcome.{Run, Result}
use recova.Prelude.Steps.{IsPreorder, Respects}
use recova.Database.{Txn, Db, modify_txn}
use recova.Database.Rows.{find-modify_ne}
use recova.Database.Growth.{Grows, Grown, Grows-refl, Grows-trans}
use recova.Tools.{AgentDecision}
use recova.Artifacts.{Artifact, Store}
use recova.Thread.{Direction, Sender, Body}
use recova.Thread.Order.{IsNumbered, add_message-IsNumbered}
use recova.Live.{
  Stage, Theatre, emit, signal_end, on_db, on_store, write_message, set_terminal, set_last_decision,
}
use recova.Live.Events.{LiveEvent}

-- The same, on the payment tables.
pub record Extended (key : ℕ) (before after : Store) : Type 0 where
  pub db : Grows key before.db after.db
  pub numbered : IsNumbered before.messages → IsNumbered after.messages

abbrev pub Leaves : ℕ → Store → Result Artifact × Store → Type 0
Leaves key before r = Extended key before r.1

pub record Evolves (key : ℕ) (before after : Stage) : Type 0 where
  pub store : Extended key before.store after.store
  pub stays_terminal : before.session.terminal ≡ true → after.session.terminal ≡ true
  pub stays_closed : before.session.closed ≡ true → after.session.closed ≡ true
  pub hushed :
      before.session.closed ≡ true
      → keep is_some after.session.queue ≡ keep is_some before.session.queue

Extended-IsPreorder : (key : ℕ) → IsPreorder (Extended key)
Extended-IsPreorder key = record {
  stays = λ s. record { db = Grows-refl key s.db; numbered = λ h. h };
  chains = λ a b c g h. record {
    db = Grows-trans key a.db b.db c.db g.db h.db;
    numbered = λ n. h.numbered (g.numbered n);
  };
}

pub Evolves-IsPreorder : (key : ℕ) → IsPreorder (Evolves key)
Evolves-IsPreorder key = record {
  stays = λ s. record {
    store = (Extended-IsPreorder key).stays s.store;
    stays_terminal = λ h. h;
    stays_closed = λ h. h;
    hushed = λ h. refl;
  };
  chains = λ a b c g h. record {
    store = (Extended-IsPreorder key).chains a.store b.store c.store g.store h.store;
    stays_terminal = λ t. h.stays_terminal (g.stays_terminal t);
    stays_closed = λ t. h.stays_closed (g.stays_closed t);
    hushed = λ t. h.hushed (g.stays_closed t) ∙ g.hushed t;
  };
}

module _ (key : ℕ) where
  pub unchanged_store : (s : Store) → Extended key s s
  unchanged_store s = (Extended-IsPreorder key).stays s

  -- A change of the store alone.
  pub store_Evolves :
      (stage : Stage) (store : Store)
      → Extended key stage.store store
      → Evolves key stage (record stage { store = store })
  store_Evolves stage store h = record {
    store = h;
    stays_terminal = λ t. t;
    stays_closed = λ t. t;
    hushed = λ t. refl;
  }

  pub Evolves-on_db : {A : Type 0} (m : Run Db A) → Grown key m → Respects (Evolves key) (on_db m)
  unfolding on_db
  Evolves-on_db m h = record {
    at = λ stage. store_Evolves stage _ (record { db = h.at stage.store.db; numbered = λ n. n });
  }

  pub Evolves-on_store :
      {A : Type 0} (m : Run Store A)
      → Respects (Extended key) m
      → Respects (Evolves key) (on_store m)
  unfolding on_store
  Evolves-on_store m h = record { at = λ stage. store_Evolves stage _ (h.at stage.store) }

  pub Evolves-emit : (event : LiveEvent) → Respects (Evolves key) (emit event)
  unfolding emit
  Evolves-emit event = record { at = λ stage. by_closed stage stage.session.closed refl }
    where
      by_closed :
          (stage : Stage) (b : Bool)
          → stage.session.closed ≡ b
          → Evolves key stage (
              if b then stage else record stage {
                session = record (stage.session) { queue = stage.session.queue ++ some event ∷ [] };
              })
      by_closed stage true shut = (Evolves-IsPreorder key).stays stage
      by_closed stage false live = record {
        store = unchanged_store stage.store;
        stays_terminal = λ t. t;
        stays_closed = λ t. t;
        hushed = λ t. ground arith;
      }

  pub Evolves-signal_end : Respects (Evolves key) signal_end
  unfolding signal_end
  Evolves-signal_end = record {
    at = λ stage. record {
      store = unchanged_store stage.store;
      stays_terminal = λ t. t;
      stays_closed = λ t. t;
      hushed = λ t. keep-append is_some stage.session.queue (none ∷ []) ∙ append-nil _;
    };
  }

  -- A change of the stage beside its store, its flags and its queue.
  pub aside :
      (before after : Stage)
      → after.store ≡ before.store
      → after.session.terminal ≡ before.session.terminal
      → after.session.closed ≡ before.session.closed
      → after.session.queue ≡ before.session.queue
      → Evolves key before after
  aside before after s t c q = record {
    store = rw s (unchanged_store before.store);
    stays_terminal = λ h. t ∙ h;
    stays_closed = λ h. c ∙ h;
    hushed = λ h. ap (keep is_some) q;
  }

  pub Evolves-set_last_decision : (d : AgentDecision) → Respects (Evolves key) (set_last_decision d)
  unfolding set_last_decision
  Evolves-set_last_decision d = record { at = λ stage. aside stage _ refl refl refl refl }

  pub Evolves-set_terminal : Respects (Evolves key) set_terminal
  unfolding set_terminal
  Evolves-set_terminal = record {
    at = λ stage. record {
      store = unchanged_store stage.store;
      stays_terminal = λ t. refl;
      stays_closed = λ t. t;
      hushed = λ t. refl;
    };
  }

  pub Extended-write_message :
      (θ : Theatre) (direction : Direction) (sender : Sender) (body : Body) (a : Option Artifact)
      → Respects (Extended key) (write_message θ direction sender body a)
  unfolding write_message
  Extended-write_message θ direction sender body a = record {
    at = λ store. record {
      db = Grows-refl key store.db;
      numbered = add_message-IsNumbered θ.transaction_id direction sender body _ store.messages;
    };
  }

  -- A change of the row of the case.
  pub changed :
      (f : Txn → Txn) (db : Db)
      → ((t : Txn) → (f t).transaction_id ≡ t.transaction_id)
      → Grows key db (record db { transactions = modify_txn key f db.transactions })
  changed f db keeps = record {
    audits = Extends-refl db.audits;
    escalations = Extends-refl db.escalations;
    outbox = Extends-refl db.outbox;
    others = λ j ne. find-modify_ne j key f db.transactions keeps ne;
  }
