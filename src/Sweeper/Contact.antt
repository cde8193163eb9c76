-- ===== src/Sweeper/Contact.antt =====
-- Whom the sweeper writes to.
use recova.Prelude.{
  ℕ, ◌≡◌, refl, inl, inr, true, false, not, Option, none, some, List, [], ◌∷◌, arith, or_else,
  is_some, Bool-cases, Option-cases, ◌||◌, ◌==◌, ◌∙◌, sym,
}
use recova.Prelude.Outcome.{Result, ok, err}
use recova.Constants.{AgentTool, Action, Channel}
use recova.Dates.{Date, Moment}
use recova.Compliance.{is_within_quiet_hours}
use recova.Policy.{Sandbox}
use recova.Database.{Txn, Db, find_txn}
use recova.Workflow.Execute.{armed_rule}
use recova.Tools.{AgentDecision, tool_resolution}
use recova.Tools.Branches.{gate_tool}
use recova.Tools.Gate.{IsGated, Concludes, gate_tool-IsGated}
use recova.Artifacts.{Artifact, Store}
use recova.Artifacts.Payment.{Poll, reconcile, book}
use recova.Sweeper.{
  is_terminal, is_open_status, follow_up_request, after_gate, chase, chase_found, after_reconcile,
  process_artifact, process_all, tick, and_rest,
}

unarmed-loud :
    (hour retries most attempts : ℕ)
    → armed_rule Action.send_whatsapp (some Channel.whatsapp) hour retries most attempts ≡ none
    → is_within_quiet_hours hour ≡ false
unfolding armed_rule
unarmed-loud hour retries most attempts h = elim (Bool-cases (is_within_quiet_hours hour)) [
  | inl quiet ↦ ground arith
  | inr loud ↦ loud
]

whatsapp_resolution :
    tool_resolution AgentTool.send_whatsapp
    ≡ (some Action.send_whatsapp, some Channel.whatsapp, none)
unfolding tool_resolution
whatsapp_resolution = refl

-- When the gate lets a message out, the hour is outside the quiet hours.
loud_gate :
    (sandbox : Sandbox) (txn : Txn) (now : Moment) (day : Date) (d : AgentDecision)
    → IsGated sandbox txn AgentTool.send_whatsapp Action.send_whatsapp
        (some Channel.whatsapp)
        (follow_up_request now day)
        d
    → d.allowed ≡ true
    → is_within_quiet_hours now.hour ≡ false
loud_gate sandbox txn now day d gated allowed =
    unarmed-loud now.hour txn.retry_count txn.max_retries 0
      (sym gated.rule ∙ (gated.allowed_iff.0 allowed).0)

gate_quiet :
    (sandbox : Sandbox) (txn : Txn) (a : Artifact) (balance : ℕ) (now : Moment) (day : Date)
    (store : Store)
    → is_within_quiet_hours now.hour ≡ true
    → (after_gate a balance now store (
        gate_tool sandbox txn AgentTool.send_whatsapp
          (follow_up_request now day)
          store.db)).1.messages
      ≡ store.messages
gate_quiet sandbox txn a balance now day store quiet = after _ (
    gate_tool-IsGated sandbox txn AgentTool.send_whatsapp (follow_up_request now day) store.db
      Action.send_whatsapp (some Channel.whatsapp) none whatsapp_resolution)
  where
    after :
        (r : Result AgentDecision × Db)
        → Concludes
            (λ d _.
              IsGated sandbox txn AgentTool.send_whatsapp Action.send_whatsapp
                (some Channel.whatsapp)
                (follow_up_request now day)
                d)
            r
        → (after_gate a balance now store r).1.messages ≡ store.messages
    after (ok d, db) gated = elim (Bool-cases d.allowed) [
      | inl out ↦ ground (arith, loud_gate sandbox txn now day d gated out)
      | inr held ↦ rw held refl
    ]
    after (err e, db) h = refl

module _ (sandbox : Sandbox) (day : Date) (now : Moment)
    (quiet : is_within_quiet_hours now.hour ≡ true) where
  chase_quiet :
      (a : Artifact) (txn : Txn) (store : Store)
      → (chase sandbox day now a txn store).1.messages ≡ store.messages
  unfolding chase
  chase_quiet a txn store =
      elim (Bool-cases (is_terminal txn.current_state || not (is_open_status a.status))) [
        | inl closed ↦ rw closed refl
        | inr open_case ↦ elim (Bool-cases (or_else txn.metadata.balance_due_minor 0 == 0)) [
          | inl clear ↦ rw (open_case, clear) refl
          | inr due ↦ rw (open_case, due) (gate_quiet sandbox txn a _ now day store quiet)
        ]
      ]

  chase_found_quiet :
      (a : Artifact) (o : Option Txn) (store : Store)
      → (chase_found sandbox day now a o store).1.messages ≡ store.messages
  chase_found_quiet a none store = refl
  chase_found_quiet a (some txn) store = chase_quiet a txn store

  reconciled_quiet :
      (poll : Poll) (a : Artifact) (store : Store)
      → (after_reconcile sandbox day now (reconcile poll a store)).1.messages ≡ store.messages
  unfolding reconcile book
  reconciled_quiet poll a store = elim (Bool-cases (is_some a.provider_id)) [
    | inl real ↦ rw real (chase_found_quiet _ _ _)
    | inr unreal ↦ rw unreal (chase_found_quiet _ _ _)
  ]

  process_quiet :
      (poll : Artifact → Poll) (a : Artifact) (store : Store)
      → (process_artifact sandbox day now poll a store).1.messages ≡ store.messages
  unfolding process_artifact
  process_quiet poll a store =
      elim (Option-cases (find_txn a.transaction_id store.db.transactions)) [
        | inl missing ↦ rw (missing, process_artifact) refl
        | inr (txn, found) ↦ rw (found, process_artifact) (reconciled_quiet (poll a) a store)
      ]

  process_all_quiet :
      (poll : Artifact → Poll) (rows : List Artifact) (store : Store)
      → (process_all sandbox day now poll rows store).1.messages ≡ store.messages
  unfolding process_all
  process_all_quiet poll [] store = refl
  process_all_quiet poll (a ∷ rest) store =
      rest_quiet (λ s. process_all_quiet poll rest s) _ _ (process_quiet poll a store)
    where
      rest_quiet :
          ((s : Store) → (process_all sandbox day now poll rest s).1.messages ≡ s.messages)
          → (r : Result (Unit {0})) (s : Store) → s.messages ≡ store.messages
          → (and_rest (process_all sandbox day now poll rest) (r, s)).1.messages ≡ store.messages
      rest_quiet ih (ok _) s e = ih s ∙ e
      rest_quiet ih (err x) s e = e

-- A tick of the sweeper within quiet hours adds no message, whatever is due and whatever the polls
-- answer.
pub tick-quiet :
    (sandbox : Sandbox) (day : Date) (now : Moment) (poll : Artifact → Poll) (store : Store)
    → is_within_quiet_hours now.hour ≡ true
    → (tick sandbox day now poll store).1.messages ≡ store.messages
unfolding tick
tick-quiet sandbox day now poll store quiet = process_all_quiet sandbox day now quiet poll _ store
