-- ===== src/Artifacts/Ledger.antt =====
-- The artifacts of a case over its life: the one that is unpaid, their statuses against the money, and
-- the state of the case.
use recova.Prelude.{
  ℕ, ◌≡◌, ◌≢◌, ◌≤◌, ◌<◌, ◌↔◌, ◌⊎◌, inl, inr, Bool, true, false, Option, none, some, List, [], ◌∷◌,
  ◌++◌, arith, count_of, Bool-cases, ltb, ltb→lt, ◌==◌, ◌&&◌,
}
use recova.Prelude.Outcome.{Result, ok, err, Error}
use recova.Constants.{LifecycleState, ArtifactStatus}
use recova.Database.{Txn}
use recova.Artifacts.{Artifact, Store, Providers, Terms, is_prior, close_prior, new_artifact}
use recova.Artifacts.Payment.{
  PolledStatus, is_partially_paid, apply_to_case, settled, take_amount, is_closed_case, expire,
}

abbrev pub is_part_paid : ℕ → Artifact → Bool
is_part_paid key a = a.transaction_id == key && is_partially_paid a.status

-- The artifacts of the case after a mint: one is unpaid, the new one, and the part-paid ones are left;
-- or the mint raised.
abbrev pub MintedOne : ℕ → Store → Result Artifact × Store → Type 0
MintedOne key before (ok a, store) =
    (count_of (is_prior key) store.artifacts ≡ 1)
    × (is_prior key a ≡ true)
    × (count_of (is_part_paid key) store.artifacts ≡ count_of (is_part_paid key) before.artifacts)
MintedOne key before (err e, store) = e ≡ Error.name_error

module _ (p : Providers) (terms : Terms) (txn : Txn) (store : Store) where
  abbrev row : Artifact
  row = new_artifact p terms store.next_id txn.transaction_id

  abbrev minted : List Artifact
  minted = close_prior txn.transaction_id store.artifacts ++ row ∷ []

-- The status of an artifact agrees with the money it has taken.
pub record IsBooked (a : Artifact) : Type 0 where
  pub when_paid : a.status ≡ ArtifactStatus.paid → a.amount_minor ≤ a.amount_paid_minor
  pub when_partial :
      a.status ≡ ArtifactStatus.partially_paid
      → (0 < a.amount_paid_minor) × (a.amount_paid_minor < a.amount_minor)

pub new_artifact-IsBooked :
    (p : Providers) (terms : Terms) (id key : ℕ) → IsBooked (new_artifact p terms id key)
unfolding new_artifact
new_artifact-IsBooked p terms id key = record {
  when_paid = λ h. ground arith;
  when_partial = λ h. ground arith;
}

taken-IsBooked : (a : Artifact) (n : ℕ) → 0 < n → IsBooked (take_amount a n)
unfolding take_amount
taken-IsBooked a n some_money = record {
  when_paid = λ h. ground arith;
  when_partial = λ h. ground arith;
}

expired-IsBooked : (a : Artifact) (o : Option PolledStatus) → IsBooked a → IsBooked (expire a o)
expired-IsBooked a (some PolledStatus.expired) h = record {
  when_paid = λ e. ground arith;
  when_partial = λ e. ground arith;
}
expired-IsBooked a (some PolledStatus.other) h = h
expired-IsBooked a (some PolledStatus.paid) h = h
expired-IsBooked a none h = h

-- If the status of an artifact agrees with the money it took, it still does after a poll, whatever
-- the provider reports.
pub settled-IsBooked :
    (a : Artifact) (status : Option PolledStatus) (reported : Option ℕ)
    → IsBooked a
    → IsBooked (settled a status reported)
unfolding settled
settled-IsBooked a (some PolledStatus.paid) reported h = record {
  when_paid = λ _. omega arith;
  when_partial = λ e. ground arith;
}
settled-IsBooked a (some PolledStatus.expired) none h =
    expired-IsBooked a (some PolledStatus.expired) h
settled-IsBooked a (some PolledStatus.other) none h = h
settled-IsBooked a none none h = h
settled-IsBooked a (some PolledStatus.expired) (some n) h = elim (Bool-cases (ltb 0 n)) [
  | inl some_money ↦ rw some_money (taken-IsBooked a n (ltb→lt 0 n some_money))
  | inr no_money ↦ rw no_money (expired-IsBooked a (some PolledStatus.expired) h)
]
settled-IsBooked a (some PolledStatus.other) (some n) h = elim (Bool-cases (ltb 0 n)) [
  | inl some_money ↦ rw some_money (taken-IsBooked a n (ltb→lt 0 n some_money))
  | inr no_money ↦ rw no_money (expired-IsBooked a (some PolledStatus.other) h)
]
settled-IsBooked a none (some n) h = elim (Bool-cases (ltb 0 n)) [
  | inl some_money ↦ rw some_money (taken-IsBooked a n (ltb→lt 0 n some_money))
  | inr no_money ↦ rw no_money (expired-IsBooked a none h)
]

-- On a case that is not recovered, a payment recovers it exactly if the artifact is partial and
-- its paid amount covers the whole bill, or the artifact is plain and paid and the case is neither
-- escalated nor cancelled.
pub apply_to_case-recovers_iff :
    (a : Artifact) (t : Txn)
    → t.current_state ≢ LifecycleState.recovered
    → ((apply_to_case a t).current_state ≡ LifecycleState.recovered) ↔ (
        ((a.accept_partial ≡ true) × (t.amount_minor ≤ a.amount_paid_minor))
        ⊎ ((a.accept_partial ≡ false)
            × (a.status ≡ ArtifactStatus.paid)
            × (is_closed_case t.current_state ≡ false)))
unfolding apply_to_case
apply_to_case-recovers_iff a t unrecovered = (λ h. ground arith, λ h. ground arith)
