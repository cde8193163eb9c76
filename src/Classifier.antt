-- ===== src/Classifier.antt =====
-- Backend/application/operations/failure_classifier.py: gateway signals to the four classes.
pub mod Taxonomy
use recova.Prelude.{String, Bool, List, [], ◌∷◌, Option, none, some, if◌then◌else◌}
use recova.Prelude.Text.{Text, codes, upper, same_text}
use recova.Constants.{FailureClass}

abbrev pub error_code_to_class : List (String × FailureClass)
error_code_to_class =
    ("BAD_REQUEST_GATEWAY_TIMEOUT", FailureClass.realtime_degradation)
    ∷ ("GATEWAY_TIMEOUT", FailureClass.realtime_degradation)
    ∷ ("ISSUER_DOWN", FailureClass.realtime_degradation)
    ∷ ("NETWORK_FAILURE", FailureClass.realtime_degradation)
    ∷ ("AUTH_3DS_DROPPED", FailureClass.checkout_abandonment)
    ∷ ("CUSTOMER_AUTH_TIMEOUT", FailureClass.checkout_abandonment)
    ∷ ("SESSION_EXPIRED", FailureClass.checkout_abandonment)
    ∷ ("CUSTOMER_DROPPED_OFF", FailureClass.checkout_abandonment)
    ∷ ("INSUFFICIENT_FUNDS", FailureClass.subscription_mandate)
    ∷ ("MANDATE_PAUSED", FailureClass.subscription_mandate)
    ∷ ("TOKEN_EXPIRED", FailureClass.subscription_mandate)
    ∷ ("MANDATE_REJECTED", FailureClass.subscription_mandate)
    ∷ []

abbrev pub invoice_overdue_event : Text
invoice_overdue_event = codes "invoice.overdue"

-- `table.get(code)`
unfoldable pub class_of : Text → List (String × FailureClass) → Option FailureClass
class_of code [] = none
class_of code ((name, fc) ∷ table) =
    if same_text code (codes name) then some fc else class_of code table

-- the `if error_code:` branch; no code and the empty one are skipped
unfoldable pub class_of_code : Option Text → Option FailureClass
unfolding class_of
class_of_code none = none
class_of_code (some []) = none
class_of_code (some (c ∷ code)) = class_of (upper (c ∷ code)) error_code_to_class

-- `none` is the exception UnclassifiableSignal
unfoldable pub classify : Text → Option Text → Option FailureClass
classify event_type error_code =
    if same_text event_type invoice_overdue_event
    then some FailureClass.b2b_receivables
    else class_of_code error_code
