-- ===== src/Database/Rows.antt =====
-- Rows found and written by key.
use recova.Prelude.{ℕ, ◌≡◌, ◌≢◌, refl, none, some, List, [], ◌∷◌, arith, ◌==◌, Bool-cases, inl, inr}
use recova.Prelude.Outcome.{ok, err, Error}
use recova.Constants.{LifecycleState}
use recova.Database.{Txn, Db, find_txn, modify_txn, with_state, one_txn}

-- A change that keeps the key is read back under that key, and under no other.
pub find-modify_self :
    (key : ℕ) (f : Txn → Txn) (ts : List Txn) {found : Txn}
    → ((t : Txn) → (f t).transaction_id ≡ t.transaction_id)
    → find_txn key ts ≡ some found
    → find_txn key (modify_txn key f ts) ≡ some (f found)
unfolding find_txn modify_txn
find-modify_self key f [] keeps h = cc
find-modify_self key f (t ∷ ts) {found} keeps h =
    ground (arith, keeps t, find-modify_self key f ts {found = found} keeps)

pub find-modify_missing :
    (key : ℕ) (f : Txn → Txn) (ts : List Txn) → find_txn key ts ≡ none → modify_txn key f ts ≡ ts
unfolding find_txn modify_txn
find-modify_missing key f [] h = refl
find-modify_missing key f (t ∷ ts) h = ground (arith, find-modify_missing key f ts)

pub find-modify_ne :
    (j key : ℕ) (f : Txn → Txn) (ts : List Txn)
    → ((t : Txn) → (f t).transaction_id ≡ t.transaction_id)
    → j ≢ key
    → find_txn j (modify_txn key f ts) ≡ find_txn j ts
unfolding find_txn modify_txn
find-modify_ne j key f [] keeps ne = refl
find-modify_ne j key f (t ∷ ts) keeps ne =
    ground (arith, keeps t, find-modify_ne j key f ts keeps ne)

pub find-with_state :
    (key : ℕ) (state : LifecycleState) (ts : List Txn) {found : Txn}
    → find_txn key ts ≡ some found
    → find_txn key (modify_txn key (with_state state) ts) ≡ some (with_state state found)
find-with_state key state ts h = find-modify_self key (with_state state) ts (λ t. refl) h

-- `.one()` on a row that is there, and on one that is not.
pub one_txn-found :
    (key : ℕ) (db : Db) {t : Txn}
    → find_txn key db.transactions ≡ some t
    → one_txn key db ≡ (ok t, db)
unfolding one_txn
one_txn-found key db h = rw (h, one_txn)

pub one_txn-missing :
    (key : ℕ) (db : Db)
    → find_txn key db.transactions ≡ none
    → one_txn key db ≡ (err Error.no_result_found, db)
unfolding one_txn
one_txn-missing key db h = rw (h, one_txn)

pub find_txn-key :
    (key : ℕ) (ts : List Txn) {t : Txn} → find_txn key ts ≡ some t → t.transaction_id ≡ key
unfolding find_txn
find_txn-key key [] h = ground arith
find_txn-key key (x ∷ ts) {t} h = elim (Bool-cases (x.transaction_id == key)) [
  | inl here ↦ ground arith
  | inr there ↦ find_txn-key key ts {t = t} (ground arith)
]
