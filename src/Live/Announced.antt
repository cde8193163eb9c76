-- ===== src/Live/Announced.antt =====
-- The payments that a session notices evolve its own case.
use recova.Prelude.{
  ℕ, ◌≡◌, subst, Bool, true, false, Option, none, some, List, [], ◌∷◌, arith, ◌==◌, ◌&&◌, keep, All,
  Bool-cases, inl, inr, same→≡, if◌then◌else◌,
}
use recova.Prelude.Outcome.{◌>>=◌, ◌>>◌, pure}
use recova.Prelude.Steps.{Respects, Respects-bind, Respects-test}
use recova.Constants.{LifecycleState}
use recova.Database.{Txn}
use recova.Artifacts.{Artifact}
use recova.Artifacts.Payment.{Poll, reconcile, simulate_paid}
use recova.Thread.{Body}
use recova.Live.{Theatre, current_txn}
use recova.Live.Payments.{
  report_state, report_payment, after_payment, announce_body, payment_body, announce_payment,
  is_changed, reconcile_and_announce, reconcile_each, is_pending, reconcile_pending, latest_of,
  check_found, check_latest_payment_status, find_artifact, simulate_found, simulate_payment,
}
use recova.Live.Evolution.{Extended, Evolves-IsPreorder, Evolves-on_store}
use recova.Live.Tables.{Extended-reconcile, Extended-simulate_paid}
use recova.Live.Requests.{
  Tends, Tends-finish, Tends-emit_bounds, Tends-current, Tends-post, stage_rules,
}

module _ (θ : Theatre) where
  abbrev IsOwn : Artifact → Type 0
  IsOwn a = a.transaction_id ≡ θ.transaction_id

  Tends-report_state : (b : Bool) (state : LifecycleState) → Tends θ (report_state θ b state)
  unfolding report_state
  Tends-report_state true state = search stage_rules
  Tends-report_state false LifecycleState.recovered = Tends-finish θ _ _
  Tends-report_state false LifecycleState.pending = search (stage_rules, Tends-emit_bounds)
  Tends-report_state false LifecycleState.diagnosing = search (stage_rules, Tends-emit_bounds)
  Tends-report_state false LifecycleState.waiting = search (stage_rules, Tends-emit_bounds)
  Tends-report_state false LifecycleState.intervening = search (stage_rules, Tends-emit_bounds)
  Tends-report_state false LifecycleState.escalated = search (stage_rules, Tends-emit_bounds)
  Tends-report_state false LifecycleState.cancelled = search (stage_rules, Tends-emit_bounds)
  Tends-report_state false LifecycleState.failed = search (stage_rules, Tends-emit_bounds)

  Tends-report_payment : (t : Txn) → Tends θ (report_payment θ t)
  unfolding report_payment
  Tends-report_payment t = record {
    at = λ stage. (Tends-report_state stage.session.terminal t.current_state).at stage;
  }

  Tends-after_payment : Tends θ (after_payment θ)
  unfolding after_payment
  Tends-after_payment = search (stage_rules, Tends-current, Tends-report_payment)

  Tends-announce_body : (a : Artifact) (o : Option Body) → Tends θ (announce_body θ a o)
  Tends-announce_body a none = search stage_rules
  Tends-announce_body a (some body) = search (stage_rules, Tends-post, Tends-after_payment) depth 12

  announced : (a : Artifact) → Tends θ (current_txn θ >>= λ t. announce_body θ a (payment_body a t))
  announced a = search (stage_rules, Tends-current, Tends-announce_body)

  Tends-announce_payment : (a : Artifact) → Tends θ (announce_payment θ a)
  unfolding announce_payment
  Tends-announce_payment a =
      Respects-test (λ stage. stage.session.closed) (pure tt) _ (search stage_rules) (announced a)

  Tends-reconcile_and_announce :
      (poll : Poll) (a : Artifact) → IsOwn a → Tends θ (reconcile_and_announce θ poll a)
  unfolding reconcile_and_announce
  Tends-reconcile_and_announce poll a own =
      Respects-bind (Evolves-IsPreorder θ.transaction_id) _ _
        (Evolves-on_store θ.transaction_id _ of_case) λ b. after b
    where
      of_case : Respects (Extended θ.transaction_id) (reconcile poll a)
      of_case =
          subst (λ k. Respects (Extended k) (reconcile poll a)) own
            (record { at = λ store. Extended-reconcile poll a store })

      after :
          (b : Artifact)
          → Tends θ ((if is_changed a b then announce_payment θ b else pure tt) >> pure b)
      after b = search (stage_rules, Tends-announce_payment)

  Tends-reconcile_each :
      (poll : Artifact → Poll) (rows : List Artifact)
      → All IsOwn rows
      → Tends θ (reconcile_each θ poll rows)
  unfolding reconcile_each
  Tends-reconcile_each poll [] own = record {
    at = λ stage. (Evolves-IsPreorder θ.transaction_id).stays stage;
  }
  Tends-reconcile_each poll (a ∷ rest) (own, owns) =
      Respects-test (λ stage. stage.session.terminal) (pure tt) _ (search stage_rules)
        (both (Tends-reconcile_each poll rest owns))
    where
      both :
          Tends θ (reconcile_each θ poll rest)
          → Tends θ (reconcile_and_announce θ (poll a) a >> reconcile_each θ poll rest)
      both ih =
          Respects-bind (Evolves-IsPreorder θ.transaction_id) _ _
            (Tends-reconcile_and_announce (poll a) a own) λ _. ih

  pending-IsOwn : (rows : List Artifact) → All IsOwn (keep (is_pending θ) rows)
  pending-IsOwn [] = tt
  pending-IsOwn (a ∷ rest) = elim (Bool-cases (is_pending θ a)) [
    | inl taken ↦ rw taken (own a taken, pending-IsOwn rest)
    | inr left ↦ rw left (pending-IsOwn rest)
  ]
    where
      own : (b : Artifact) → is_pending θ b ≡ true → IsOwn b
      own b h = ground arith

  pub Tends-reconcile_pending : (poll : Artifact → Poll) → Tends θ (reconcile_pending θ poll)
  unfolding reconcile_pending
  Tends-reconcile_pending poll = record {
    at = λ stage. (Tends-reconcile_each poll _ (pending-IsOwn stage.store.artifacts)).at stage;
  }

  -- An artifact that is absent, or the case's own.
  abbrev OwnIfAny : Option Artifact → Type 0
  OwnIfAny none = Unit
  OwnIfAny (some a) = IsOwn a

  latest_own :
      (best : Option Artifact) (rows : List Artifact)
      → OwnIfAny best
      → OwnIfAny (latest_of θ.transaction_id best rows)
  unfolding latest_of
  latest_own best [] own = own
  latest_own best (a ∷ rest) own = elim (Bool-cases (a.transaction_id == θ.transaction_id)) [
    | inl same ↦ rw same (latest_own (some a) rest (same→≡ _ _ same))
    | inr other ↦ rw other (latest_own best rest own)
  ]

  found_own : (id : ℕ) (rows : List Artifact) → OwnIfAny (find_artifact id θ.transaction_id rows)
  unfolding find_artifact
  found_own id [] = tt
  found_own id (a ∷ rest) = elim (Bool-cases (a.id == id && a.transaction_id == θ.transaction_id)) [
    | inl same ↦ rw same (own a same)
    | inr other ↦ rw other (found_own id rest)
  ]
    where
      own : (b : Artifact) → (b.id == id && b.transaction_id == θ.transaction_id) ≡ true → IsOwn b
      own b h = ground arith

  Tends-check_found :
      (poll : Artifact → Poll) (o : Option Artifact) → OwnIfAny o → Tends θ (check_found θ poll o)
  Tends-check_found poll none own = search stage_rules
  Tends-check_found poll (some a) own = search (stage_rules, Tends-reconcile_and_announce)

  pub Tends-check_latest_payment_status :
      (poll : Artifact → Poll) → Tends θ (check_latest_payment_status θ poll)
  unfolding check_latest_payment_status
  Tends-check_latest_payment_status poll = record {
    at = λ stage. (Tends-check_found poll _ (latest_own none stage.store.artifacts tt)).at stage;
  }

  Tends-simulate_found : (o : Option Artifact) → OwnIfAny o → Tends θ (simulate_found θ o)
  Tends-simulate_found none own = search stage_rules
  Tends-simulate_found (some a) own =
      Respects-bind (Evolves-IsPreorder θ.transaction_id) _ _
        (Evolves-on_store θ.transaction_id _
          (subst (λ k. Respects (Extended k) (simulate_paid a)) own (Extended-simulate_paid a)))
        λ b. after b
    where
      after : (b : Artifact) → Tends θ (announce_payment θ b >> pure b)
      after b = search (stage_rules, Tends-announce_payment)

  pub Tends-simulate_payment : (id : ℕ) → Tends θ (simulate_payment θ id)
  unfolding simulate_payment
  Tends-simulate_payment id = record {
    at = λ stage. (Tends-simulate_found _ (found_own id stage.store.artifacts)).at stage;
  }
