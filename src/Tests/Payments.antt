-- ===== src/Tests/Payments.antt =====
-- Concrete payments, ticks of the sweeper and gateway events.
use recova.Prelude.{◌≡◌, ◌≢◌, ◌≤◌, ◌↔◌, ◌⊎◌, refl, true, false, none, some, [], arith}
use recova.Prelude.Outcome.{ok}
use recova.Constants.{LifecycleState, ArtifactStatus}
use recova.Compliance.{is_within_quiet_hours}
use recova.Database.Growth.{Grows}
use recova.Artifacts.Payment.{settled, apply_to_case, is_closed_case}
use recova.Artifacts.Ledger.{settled-IsBooked, IsBooked, apply_to_case-recovers_iff}
use recova.Sweeper.{tick}
use recova.Sweeper.Contact.{tick-quiet}
use recova.Webhook.{Response, ingest_razorpay_event, signature_is_valid, event_id_of}
use recova.Webhook.Once.{ingest-once, ingest-Grows}
use recova.Tests.Samples.{
  some_day, evening, policy, case_7, shop, plan, no_news, verifier, wiring, event_1, inbox,
}

plan-IsBooked : IsBooked plan
plan-IsBooked = record { when_paid = λ h. ground arith; when_partial = λ h. ground arith }

settled-IsBooked_example : IsBooked (settled plan none (some 25000))
settled-IsBooked_example = settled-IsBooked plan none (some 25000) plan-IsBooked

case_7-unrecovered : case_7.current_state ≢ LifecycleState.recovered
case_7-unrecovered e = ground arith

apply_to_case-recovers_iff_example :
    ((apply_to_case plan case_7).current_state ≡ LifecycleState.recovered) ↔ (
      ((plan.accept_partial ≡ true) × (case_7.amount_minor ≤ plan.amount_paid_minor))
      ⊎ ((plan.accept_partial ≡ false)
          × (plan.status ≡ ArtifactStatus.paid)
          × (is_closed_case case_7.current_state ≡ false)))
apply_to_case-recovers_iff_example = apply_to_case-recovers_iff plan case_7 case_7-unrecovered

tick-quiet_example : (tick policy some_day evening (λ _. no_news) shop).1.messages ≡ []
unfolding is_within_quiet_hours
tick-quiet_example = tick-quiet policy some_day evening (λ _. no_news) shop refl

ingest-once_example :
    ingest_razorpay_event verifier wiring event_1
      (ingest_razorpay_event verifier wiring event_1 inbox).1
    ≡ (ok (Response.duplicate 1), (ingest_razorpay_event verifier wiring event_1 inbox).1)
unfolding signature_is_valid event_id_of
ingest-once_example = ingest-once verifier wiring event_1 event_1 1 inbox refl refl refl refl

ingest-Grows_example : Grows 7 inbox.db (ingest_razorpay_event verifier wiring event_1 inbox).1.db
ingest-Grows_example = ingest-Grows verifier wiring event_1 inbox
