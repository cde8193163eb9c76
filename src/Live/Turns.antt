-- ===== src/Live/Turns.antt =====
-- live_session.py: `_mint_artifact`, and the dispatch, the message and the call of
-- `_apply_agent_decision`; the rendering of a payment is `payment_render_variant` of
-- integrations/razorpay_mcp.py.
use recova.Prelude.{
  ℕ, suc, Bool, true, false, ◌||◌, Option, none, some, List, [], ◌∷◌, ◌++◌, ltb, keep, String,
  if◌then◌else◌,
}
use recova.Prelude.Text.{Text}
use recova.Prelude.Outcome.{Run, ok, pure, raise, no_dispatcher_route, ◌>>=◌, ◌>>◌}
use recova.Constants.{
  FailureClass, LifecycleState, NodeName, ActionType, Outcome, Channel, Action, StoppingRule,
  Playbook, ArtifactKind, same_string,
}
use recova.Dates.{Moment, add_days}
use recova.Database.{Txn, AuditRow, Entry, with_state, record_audit, same_channel}
use recova.Workflow.Execute.{amount_or, dispatch}
use recova.Tools.{AgentDecision}
use recova.Artifacts.{Artifact, Terms, mint, is_prior}
use recova.Thread.{Direction, Sender, Body}
use recova.Live.{Stage, Theatre, CallStatus, emit, on_db, on_store, current_txn, change_case, post}
use recova.Live.Events.{LiveEvent, Bounds}
use recova.Live.Gauge.{bounds_of}

-- `payment_render_variant`, with its table
unfoldable pub payment_render_variant : FailureClass → String
payment_render_variant FailureClass.realtime_degradation = "link"
payment_render_variant FailureClass.checkout_abandonment = "upi"
payment_render_variant FailureClass.subscription_mandate = "qr"
payment_render_variant FailureClass.b2b_receivables = "link"

-- the table from a variant to a kind
unfoldable pub variant_kind : String → ArtifactKind
variant_kind variant =
    if same_string variant "upi"
    then ArtifactKind.upi_link
    else if same_string variant "qr"
    then ArtifactKind.qr
    else ArtifactKind.link

abbrev pub artifact_kind : Option Action → FailureClass → ArtifactKind
artifact_kind (some Action.generate_qr_code) fc = ArtifactKind.qr
artifact_kind _ fc = variant_kind (payment_render_variant fc)

abbrev pub is_partial_offer : Option Action → Bool
is_partial_offer (some Action.offer_partial_plan) = true
is_partial_offer _ = false

-- `decision.deadline_days or settings.partial_plan_default_days`
abbrev pub plan_days : Theatre → AgentDecision → ℕ
plan_days θ d = amount_or d.deadline_days θ.partial_plan_default_days

abbrev pub plan_deadline : Theatre → AgentDecision → Option Moment → Moment
plan_deadline θ d (some at) = at
plan_deadline θ d none = record (θ.clock) { date = add_days (plan_days θ d) θ.clock.date }

-- the keyword arguments of the call of `mint`
unfoldable pub artifact_terms : Theatre → Txn → AgentDecision → Terms
artifact_terms θ txn d =
    let amount = amount_or d.request_amount_minor txn.amount_minor in
    let is_partial = ltb amount txn.amount_minor || is_partial_offer d.action in
    record {
      kind = artifact_kind d.action txn.failure_class;
      amount_minor = amount;
      accept_partial = is_partial;
      first_min_partial_minor = if is_partial then some amount else none;
      deadline = if is_partial then some (plan_deadline θ d θ.demo_deadline) else none;
    }

-- the loop over `prior_active_ids`
unfoldable pub announce_closed : List Artifact → Run Stage (Unit {0})
announce_closed [] = pure tt
announce_closed (a ∷ rest) = do emit (LiveEvent.artifact_closed a.id); announce_closed rest

-- `_mint_artifact`
unfoldable pub mint_artifact : Theatre → Txn → AgentDecision → Run Stage Artifact
mint_artifact θ txn d stage =
    let prior = keep (is_prior txn.transaction_id) stage.store.artifacts in
    (do
      artifact ← on_store (mint θ.providers (artifact_terms θ txn d) txn)
      announce_closed prior
      pure artifact)
      stage

-- `_PAYMENT_ACTIONS`
abbrev pub is_payment_action : Option Action → Bool
is_payment_action (some Action.generate_payment_link) = true
is_payment_action (some Action.generate_qr_code) = true
is_payment_action (some Action.offer_partial_plan) = true
is_payment_action _ = false

-- the minted artifact of a payment action
unfoldable pub mint_if_payment : Theatre → Txn → AgentDecision → Run Stage (Option Artifact)
mint_if_payment θ txn d =
    if is_payment_action d.action
    then (do artifact ← mint_artifact θ txn d; pure (some artifact))
    else pure none

abbrev pub playbook_entry : Option Playbook → List Entry
playbook_entry none = []
playbook_entry (some p) = Entry.playbook p ∷ []

abbrev pub action_entry : Option Action → List Entry
action_entry none = []
action_entry (some a) = Entry.action a ∷ []

abbrev pub dispatch_audit : Theatre → AgentDecision → Channel → Option Playbook → AuditRow
dispatch_audit θ d c playbook = record {
  transaction_id = θ.transaction_id;
  node_name = NodeName.execute_intervention;
  action_type = ActionType.intervention_dispatch;
  payload =
      action_entry d.action
      ++ Entry.channel (some c) ∷ playbook_entry playbook
      ++ Entry.agent_tool d.tool ∷ Entry.live_session_id θ.session_id ∷ [];
  outcome = Outcome.success;
}

-- the call of the dispatcher, on an action that is no payment
abbrev pub dispatch_action : Theatre → Txn → Option Action → Run Stage (Unit {0})
dispatch_action θ txn none = raise no_dispatcher_route
dispatch_action θ txn (some a) = on_db (dispatch a (some txn.amount_minor) θ.transaction_id)

unfoldable pub dispatch_unless_payment : Theatre → Txn → AgentDecision → Run Stage (Unit {0})
dispatch_unless_payment θ txn d =
    if is_payment_action d.action then pure tt else dispatch_action θ txn d.action

abbrev pub emit_artifact : Option Artifact → Run Stage (Unit {0})
emit_artifact none = pure tt
emit_artifact (some a) = emit (LiveEvent.artifact a)

-- the body with the artifact's address, if there is an artifact; an absent body is empty
abbrev pub fitted_body : Theatre → Option Artifact → Text → Text
fitted_body θ none body = body
fitted_body θ (some a) [] = []
fitted_body θ (some a) (c ∷ body) = θ.fit_link a (c ∷ body)

-- `if body: ...`
abbrev pub post_body : Theatre → Sender → Option Artifact → Text → Run Stage (Unit {0})
post_body θ sender artifact [] = pure tt
post_body θ sender artifact (c ∷ body) =
    post θ Direction.outbound sender (Body.words (c ∷ body)) artifact

-- an event with the gauge of the case
unfoldable pub emit_gauge :
    Theatre → (Bounds → LiveEvent) → Option StoppingRule → Txn → Run Stage (Unit {0})
emit_gauge θ event rule txn stage =
    emit (event (bounds_of θ.policy stage.store.db.audits txn rule θ.clock)) stage

unfoldable pub emit_bounds : Theatre → Option StoppingRule → Run Stage (Unit {0})
emit_bounds θ rule = do txn ← current_txn θ; emit_gauge θ LiveEvent.bounds rule txn

-- the new `CallSession`, with `self.call_session_id`
unfoldable pub add_call : Theatre → CallStatus → Run Stage ℕ
add_call θ status stage = (
  ok stage.next_call,
  record stage {
    calls =
        stage.calls
        ++ record {
          id = stage.next_call;
          transaction_id = θ.transaction_id;
          status = status;
          duration_sec = 0;
        }
          ∷ [];
    next_call = suc stage.next_call;
    session = record (stage.session) { call_session_id = some stage.next_call };
  },
)

-- the `call_offer` of a voice call
unfoldable pub offer_call : Theatre → Run Stage (Unit {0})
offer_call θ = do
  id ← add_call θ CallStatus.ringing
  txn ← current_txn θ
  emit_gauge θ (LiveEvent.call_offer id) none txn

-- `_apply_agent_decision` on an allowed decision with a channel
unfoldable pub contact :
    Theatre → AgentDecision → Channel → Text → Option Playbook → Txn → Run Stage (Option Artifact)
contact θ d c body playbook txn = do
  artifact ← mint_if_payment θ txn d
  on_db (change_case θ (with_state LifecycleState.intervening))
  on_db (record_audit (dispatch_audit θ d c playbook))
  dispatch_unless_payment θ txn d
  emit (LiveEvent.dispatch c)
  emit_artifact artifact
  post_body θ Sender.agent artifact (fitted_body θ artifact body)
  if same_channel c Channel.voice then offer_call θ else pure tt
  pure artifact
