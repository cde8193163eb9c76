-- ===== src/Live/Requests.antt =====
-- Every request of a live session evolves its own case.
use recova.Prelude.{
  ◌≡◌, refl, sym, subst, Bool, true, false, Option, none, some, List, [], ◌∷◌, Option-cases, keep,
  inl, inr, ◌⊎◌, Extends-refl,
}
use recova.Prelude.Text.{Text}
use recova.Prelude.Outcome.{Run, Result, ok, err, Error, ◌>>=◌, pure, bind-ok, bind-err}
use recova.Prelude.Steps.{IsPreorder, Respects, Respects-bind, Respects-reads, step_rules}
use recova.Constants.{LifecycleState, StoppingRule, Playbook, Channel, Action}
use recova.Database.{Txn, find_txn, with_state}
use recova.Database.Rows.{find_txn-key, find-modify_ne}
use recova.Database.Growth.{Grows, Grown, grown_rules}
use recova.Workflow.Frame.{Grown-dispatch}
use recova.Tools.{AgentDecision}
use recova.Artifacts.{Artifact, mint, is_prior}
use recova.Thread.{Direction, Sender, Body}
use recova.Live.{Stage, Theatre, on_store, current_txn, change_case, post}
use recova.Live.Events.{LiveEvent, Bounds}
use recova.Live.Turns.{
  announce_closed, mint_artifact, mint_if_payment, artifact_terms, dispatch_action,
  dispatch_unless_payment, emit_artifact, post_body, emit_gauge, emit_bounds, offer_call, contact,
}
use recova.Live.Decisions.{
  finish, finished, conclude_message, conclude_state, conclude, contact_or_conclude,
  apply_agent_decision,
}
use recova.Live.Evolution.{
  Extended, Evolves, Evolves-IsPreorder, Evolves-on_db, Evolves-on_store, Evolves-emit,
  Evolves-signal_end, Evolves-set_last_decision, Evolves-set_terminal, Extended-write_message,
}
use recova.Live.Tables.{Extended-mint, Evolves-add_call}

module _ (θ : Theatre) where
  -- A call that evolves the case of the session.
  abbrev pub Tends : {A : Type 0} → Run Stage A → Type 0
  Tends m = Respects (Evolves θ.transaction_id) m

  pub Grown-change_case :
      (f : Txn → Txn)
      → ((t : Txn) → (f t).transaction_id ≡ t.transaction_id)
      → Grown θ.transaction_id (change_case θ f)
  unfolding change_case
  Grown-change_case f keeps = record {
    at = λ db. record {
      audits = Extends-refl db.audits;
      escalations = Extends-refl db.escalations;
      outbox = Extends-refl db.outbox;
      others = λ j ne. find-modify_ne j θ.transaction_id f db.transactions keeps ne;
    };
  }

  pub current_txn-found :
      (stage : Stage) {t : Txn}
      → find_txn θ.transaction_id stage.store.db.transactions ≡ some t
      → current_txn θ stage ≡ (ok t, stage)
  unfolding current_txn
  current_txn-found stage h = rw (h, current_txn)

  pub current_txn-missing :
      (stage : Stage)
      → find_txn θ.transaction_id stage.store.db.transactions ≡ none
      → current_txn θ stage ≡ (err Error.value_error, stage)
  unfolding current_txn
  current_txn-missing stage h = rw (h, current_txn)

  -- What follows the case's row may rely on its key.
  pub Tends-with_txn :
      {A : Type 0} (f : Txn → Run Stage A)
      → ((t : Txn) → t.transaction_id ≡ θ.transaction_id → Tends (f t))
      → Tends (current_txn θ >>= f)
  Tends-with_txn {A} f h = record {
    at = λ stage.
        by_row stage (Option-cases (find_txn θ.transaction_id stage.store.db.transactions));
  }
    where
      by_row :
          (stage : Stage)
          → (find_txn θ.transaction_id stage.store.db.transactions ≡ none)
            ⊎ ((t : Txn) × (find_txn θ.transaction_id stage.store.db.transactions ≡ some t))
          → Evolves θ.transaction_id stage ((current_txn θ >>= f) stage).1
      by_row stage (inl missing) =
          subst (λ r. Evolves θ.transaction_id stage r.1)
            (sym (bind-err (current_txn θ) f stage (current_txn-missing stage missing)))
            ((Evolves-IsPreorder θ.transaction_id).stays stage)
      by_row stage (inr (t, here)) =
          subst (λ r. Evolves θ.transaction_id stage r.1)
            (sym (bind-ok (current_txn θ) f stage (current_txn-found stage here)))
            ((h t (find_txn-key θ.transaction_id stage.store.db.transactions here)).at stage)

  pub ruleset stage_rules = (
    step_rules, Evolves-IsPreorder, Evolves-on_db, Evolves-on_store, Evolves-emit,
    Evolves-signal_end, Evolves-set_last_decision, Evolves-set_terminal, Extended-write_message,
    Grown-change_case, grown_rules,
  )

  pub Tends-post :
      (direction : Direction) (sender : Sender) (body : Body) (a : Option Artifact)
      → Tends (post θ direction sender body a)
  unfolding post
  Tends-post direction sender body a = search stage_rules

  pub Tends-post_body :
      (sender : Sender) (a : Option Artifact) (body : Text) → Tends (post_body θ sender a body)
  Tends-post_body sender a [] = search stage_rules
  Tends-post_body sender a (c ∷ body) = Tends-post _ _ _ _

  pub Tends-emit_gauge :
      (event : Bounds → LiveEvent) (rule : Option StoppingRule) (t : Txn)
      → Tends (emit_gauge θ event rule t)
  unfolding emit_gauge
  Tends-emit_gauge event rule t = record {
    at = λ stage. (Evolves-emit θ.transaction_id _).at stage;
  }

  pub Tends-emit_bounds : (rule : Option StoppingRule) → Tends (emit_bounds θ rule)
  unfolding emit_bounds
  Tends-emit_bounds rule = Tends-with_txn _ λ t _. Tends-emit_gauge LiveEvent.bounds rule t

  finished-transaction_id :
      (state : LifecycleState) (t : Txn) → (finished state t).transaction_id ≡ t.transaction_id
  finished-transaction_id state t = refl

  pub with_state-transaction_id :
      (state : LifecycleState) (t : Txn) → (with_state state t).transaction_id ≡ t.transaction_id
  with_state-transaction_id state t = refl

  pub Tends-current : Tends (current_txn θ)
  unfolding current_txn
  Tends-current = record {
    at = λ stage. by_row stage (find_txn θ.transaction_id stage.store.db.transactions);
  }
    where
      by_row :
          (stage : Stage) (o : Option Txn)
          → Evolves θ.transaction_id stage
              (elim o as (λ _. Result Txn × Stage) [
                | none ↦ (err Error.value_error, stage)
                | some t ↦ (ok t, stage)
              ]).1
      by_row stage none = (Evolves-IsPreorder θ.transaction_id).stays stage
      by_row stage (some t) = (Evolves-IsPreorder θ.transaction_id).stays stage

  pub Tends-finish :
      (state : LifecycleState) (rule : Option StoppingRule) → Tends (finish θ state rule)
  unfolding finish
  Tends-finish state rule =
      search (stage_rules, Tends-current, Tends-emit_bounds, finished-transaction_id) depth 20

  Tends-announce_closed : (rows : List Artifact) → Tends (announce_closed rows)
  unfolding announce_closed
  Tends-announce_closed [] = search stage_rules
  Tends-announce_closed (a ∷ rest) =
      Respects-bind (Evolves-IsPreorder θ.transaction_id) _ _ (Evolves-emit θ.transaction_id _)
        λ _. Tends-announce_closed rest

  closed_then :
      (prior : List Artifact) (a : Artifact) → Tends (announce_closed prior >>= λ _. pure a)
  closed_then prior a = search (stage_rules, Tends-announce_closed)

  Tends-mint_artifact :
      (t : Txn) (d : AgentDecision)
      → t.transaction_id ≡ θ.transaction_id
      → Tends (mint_artifact θ t d)
  unfolding mint_artifact
  Tends-mint_artifact t d keyed = record {
    at = λ stage. (minted (keep (is_prior t.transaction_id) stage.store.artifacts)).at stage;
  }
    where
      of_case : Respects (Extended θ.transaction_id) (mint θ.providers (artifact_terms θ t d) t)
      of_case =
          subst (λ k. Respects (Extended k) (mint θ.providers (artifact_terms θ t d) t)) keyed
            (Extended-mint θ.providers (artifact_terms θ t d) t)

      minted :
          (prior : List Artifact)
          → Tends (
              on_store (mint θ.providers (artifact_terms θ t d) t) >>= λ a.
              announce_closed prior >>= λ _. pure a)
      minted prior =
          Respects-bind (Evolves-IsPreorder θ.transaction_id) _ _
            (Evolves-on_store θ.transaction_id _ of_case) λ a. closed_then prior a

  Tends-mint_if_payment :
      (t : Txn) (d : AgentDecision)
      → t.transaction_id ≡ θ.transaction_id
      → Tends (mint_if_payment θ t d)
  unfolding mint_if_payment
  Tends-mint_if_payment t d keyed = search (stage_rules, Tends-mint_artifact)

  Tends-dispatch_action : (t : Txn) (a : Option Action) → Tends (dispatch_action θ t a)
  Tends-dispatch_action t none = search stage_rules
  Tends-dispatch_action t (some a) = search (stage_rules, Grown-dispatch)

  Tends-dispatch : (t : Txn) (d : AgentDecision) → Tends (dispatch_unless_payment θ t d)
  unfolding dispatch_unless_payment
  Tends-dispatch t d = search (stage_rules, Tends-dispatch_action)

  Tends-emit_artifact : (a : Option Artifact) → Tends (emit_artifact a)
  Tends-emit_artifact none = search stage_rules
  Tends-emit_artifact (some a) = search stage_rules

  Tends-offer_call : Tends (offer_call θ)
  unfolding offer_call
  Tends-offer_call =
      Respects-bind (Evolves-IsPreorder θ.transaction_id) _ _ (Evolves-add_call θ _)
        λ id. Tends-with_txn _ λ t _. Tends-emit_gauge (LiveEvent.call_offer id) none t

  Tends-contact :
      (d : AgentDecision) (c : Channel) (body : Text) (playbook : Option Playbook) (t : Txn)
      → t.transaction_id ≡ θ.transaction_id
      → Tends (contact θ d c body playbook t)
  unfolding contact
  Tends-contact d c body playbook t keyed =
      search
        (
          stage_rules, Tends-mint_if_payment, Tends-dispatch, Tends-emit_artifact, Tends-post_body,
          Tends-offer_call, with_state-transaction_id,
        )
        depth 25

  Tends-conclude_message : (d : AgentDecision) (body : Text) → Tends (conclude_message θ d body)
  unfolding conclude_message
  Tends-conclude_message d body = search (stage_rules, Tends-post_body)

  Tends-conclude_state :
      (state : Option LifecycleState) (rule : Option StoppingRule)
      → Tends (conclude_state θ state rule)
  Tends-conclude_state none rule = search stage_rules
  Tends-conclude_state (some LifecycleState.escalated) rule = Tends-finish _ rule
  Tends-conclude_state (some LifecycleState.cancelled) rule = Tends-finish _ rule
  Tends-conclude_state (some LifecycleState.waiting) rule = search (stage_rules, Tends-emit_bounds)
  Tends-conclude_state (some LifecycleState.pending) rule = search stage_rules
  Tends-conclude_state (some LifecycleState.diagnosing) rule = search stage_rules
  Tends-conclude_state (some LifecycleState.intervening) rule = search stage_rules
  Tends-conclude_state (some LifecycleState.recovered) rule = search stage_rules
  Tends-conclude_state (some LifecycleState.failed) rule = search stage_rules

  Tends-conclude : (d : AgentDecision) (body : Text) → Tends (conclude θ d body)
  unfolding conclude
  Tends-conclude d body = search (stage_rules, Tends-conclude_message, Tends-conclude_state)

  pub Tends-apply :
      (d : AgentDecision) (body : Text) (playbook : Option Playbook)
      → Tends (apply_agent_decision θ d body playbook)
  unfolding apply_agent_decision
  Tends-apply d body playbook = Tends-with_txn _ λ t keyed. by_channel t keyed d.allowed d.channel
    where
      by_channel :
          (t : Txn)
          → t.transaction_id ≡ θ.transaction_id
          → (allowed : Bool) (c : Option Channel)
          → Tends (contact_or_conclude θ d body playbook t allowed c)
      by_channel t keyed true (some c) = Tends-contact d c body playbook t keyed
      by_channel t keyed true none = Tends-conclude d body
      by_channel t keyed false (some c) = Tends-conclude d body
      by_channel t keyed false none = Tends-conclude d body
