-- ===== src/Workflow/Gates.antt =====
-- What may leave the engine: a call is made only for an intervention that cleared every guard.
use recova.Prelude.{
  ℕ, ◌≡◌, refl, Bool, true, false, ◌&&◌, not, ◌⊎◌, inl, inr, Option, none, some, List, [], ◌∷◌,
  ◌++◌, or_else, is_some, subst, sym, ap, ◌∙◌, Bool-cases, Option-cases, if◌then◌else◌,
}
use recova.Prelude.Outcome.{Run, Result, ◌>>=◌, bind-ok, bind-err}
use recova.Constants.{StoppingRule, Action, Channel, Playbook}
use recova.Dates.{Moment}
use recova.Compliance.{
  rbi_max_retries, is_within_quiet_hours, retry_cap_exceeded, voice_attempts_exhausted,
}
use recova.Policy.{PolicyReason, Decision, validate}
use recova.Playbooks.{playbook_action}
use recova.Database.{Db, Txn, Entry, Sentence, AdapterCall, find_txn, one_txn, voice_attempt_count}
use recova.Database.Rows.{one_txn-found, one_txn-missing}
use recova.Workflow.State.{RecoveryState, Deps, PlaybookName}
use recova.Workflow.Silence.{carry_out-Sends, outbox-cancel_for, outbox-defer, outbox-refuse_action}
use recova.Workflow.Execute.{
  refuse_action, carry_out, proposal, playbook_of_state, intervene, gate, armed_rule, execute,
  is_retry, on_channel,
}

-- The guards that an intervention has to clear, on what the run knows.
pub record IsCleared (deps : Deps) (s : RecoveryState) (db : Db) (txn : Txn) (p : Playbook)
    : Type 0 where
  pub chosen : s.playbook ≡ some (PlaybookName.known p)
  pub unarmed :
      armed_rule
        (playbook_action p).0
        (playbook_action p).1
        (or_else s.now_ist deps.clock).hour
        (or_else s.retry_count 0)
        rbi_max_retries
        (voice_attempt_count db.audits s.transaction_id s.voice_attempts)
      ≡ none
  pub permitted :
      (validate deps.sandbox (
        proposal
          (playbook_action p).0
          (playbook_action p).1
          s.proposed_discount_pct
          txn.amount_minor)).approved
      ≡ true

-- What `execute` did to the calls: nothing, or one call for a cleared intervention.
abbrev pub SentIfCleared : Deps → RecoveryState → Db → List AdapterCall → Type 0
SentIfCleared deps s db outbox =
    (outbox ≡ db.outbox)
    ⊎ ((txn : Txn) × (p : Playbook) × (call : AdapterCall) × (find_txn s.transaction_id
            db.transactions
          ≡ some txn)
        × IsCleared deps s db txn p
        × (outbox ≡ db.outbox ++ call ∷ []))

-- No guard of the gate lets a call out but the last.
gate_unarmed :
    (deps : Deps) (txn : Txn) (p : Playbook) (a : Action) (c : Option Channel) (clock : Moment)
    (attempts : ℕ) (s : RecoveryState) (db : Db)
    → ((gate deps txn p a c clock attempts s db).1.outbox ≡ db.outbox)
      ⊎ ((armed_rule a c clock.hour (or_else s.retry_count 0) rbi_max_retries attempts ≡ none)
          × (gate deps txn p a c clock attempts s db ≡ intervene deps txn p a c s db))
unfolding gate armed_rule
gate_unarmed deps txn p a c clock attempts s db =
    elim (Bool-cases (is_some c && is_within_quiet_hours clock.hour)) [
      | inl quiet ↦ inl (rw quiet (outbox-defer a clock s db))
      | inr loud ↦
          elim (Bool-cases
            (is_retry a && retry_cap_exceeded (or_else s.retry_count 0) rbi_max_retries)) [
              | inl capped ↦
                  inl (rw (loud, capped) (outbox-cancel_for StoppingRule.rbi_max_retries [] s db))
              | inr free ↦
                  elim (Bool-cases
                    (on_channel Channel.voice c && voice_attempts_exhausted attempts)) [
                      | inl spent ↦ inl (
                          rw (loud, free, spent)
                            (outbox-cancel_for StoppingRule.voice_attempt_cap
                              (Entry.reason (Sentence.voice_cap attempts) ∷ []) s db))
                      | inr left ↦ inr (rw (loud, free, left), rw (loud, free, left))
                    ]
            ]
    ]

-- The last step of `execute`: a refusal by the sandbox sends nothing, an approval sends at most one
-- call.
intervene_sends :
    (deps : Deps) (txn : Txn) (p : Playbook) (a : Action) (c : Option Channel) (s : RecoveryState)
    (db : Db)
    → ((intervene deps txn p a c s db).1.outbox ≡ db.outbox)
      ⊎ (((validate deps.sandbox (proposal a c s.proposed_discount_pct txn.amount_minor)).approved
            ≡ true)
          × ((call : AdapterCall) × ((intervene deps txn p a c s db).1.outbox
                ≡ db.outbox ++ call ∷ [])))
unfolding intervene
intervene_sends deps txn p a c s db = decided decision.approved decision.reason
  where
    decision : Decision
    decision = validate deps.sandbox (proposal a c s.proposed_discount_pct txn.amount_minor)

    decided :
        (b : Bool) (why : PolicyReason)
        → let after =
            ((if not b then refuse_action why a s else carry_out txn p a c s) db).1.outbox in
          (after ≡ db.outbox)
          ⊎ ((b ≡ true) × ((call : AdapterCall) × (after ≡ db.outbox ++ call ∷ [])))
    decided true why = elim ((carry_out-Sends txn p a c s).at db) [
      | inl same ↦ inl same
      | inr more ↦ inr (refl, more)
    ]
    decided false why = inl (outbox-refuse_action why a s db)

-- The interventions of `execute`, by the two lookups before the gate.
execute_at :
    (deps : Deps) (s : RecoveryState) (db : Db) (txn : Txn) (o : Option PlaybookName)
    → find_txn s.transaction_id db.transactions ≡ some txn
    → s.playbook ≡ o
    → SentIfCleared deps s db
        ((playbook_of_state o >>= λ p.
            gate deps txn p
              (playbook_action p).0
              (playbook_action p).1
              (or_else s.now_ist deps.clock)
              (voice_attempt_count db.audits s.transaction_id s.voice_attempts)
              s)
          db).1.outbox
execute_at deps s db txn none found e = inl refl
execute_at deps s db txn (some (PlaybookName.unknown t)) found e = inl refl
execute_at deps s db txn (some (PlaybookName.known p)) found e =
    elim (gate_unarmed deps txn p (playbook_action p).0 (playbook_action p).1
      (or_else s.now_ist deps.clock)
      (voice_attempt_count db.audits s.transaction_id s.voice_attempts) s db) [
        | inl same ↦ inl same
        | inr (unarmed, through) ↦
            elim (intervene_sends deps txn p (playbook_action p).0 (playbook_action p).1 s db) [
              | inl same ↦ inl (ap (λ (r : Result RecoveryState × Db). r.1.outbox) through ∙ same)
              | inr (permitted, (call, sent)) ↦ inr (
                txn,
                p,
                call,
                found,
                record { chosen = e; unarmed = unarmed; permitted = permitted },
                ap (λ (r : Result RecoveryState × Db). r.1.outbox) through ∙ sent,
              )
            ]
      ]

-- The intervention node makes at most one adapter call, and only if the case exists, its state
-- carries a known playbook, no rule of quiet hours, retry cap or voice cap is armed, and the
-- sandbox approves the action.
pub execute-sends_if_cleared :
    (deps : Deps) (s : RecoveryState) (db : Db)
    → SentIfCleared deps s db (execute deps s db).1.outbox
unfolding execute
execute-sends_if_cleared deps s db =
    elim (Option-cases (find_txn s.transaction_id db.transactions)) [
      | inl missing ↦ inl (
          ap (λ (r : Result RecoveryState × Db). r.1.outbox)
            (bind-err (one_txn s.transaction_id) next db
              (one_txn-missing s.transaction_id db missing)))
      | inr (txn, found) ↦
          subst (λ (r : Result RecoveryState × Db). SentIfCleared deps s db r.1.outbox)
            (sym (
              bind-ok (one_txn s.transaction_id) next db (one_txn-found s.transaction_id db found)))
            (execute_at deps s db txn s.playbook found refl)
    ]
  where
    next : Txn → Run Db RecoveryState
    next txn = playbook_of_state s.playbook >>= λ p.
        gate deps txn p (playbook_action p).0 (playbook_action p).1 (or_else s.now_ist deps.clock)
          (voice_attempt_count db.audits s.transaction_id s.voice_attempts) s
