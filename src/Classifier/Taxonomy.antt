-- ===== src/Classifier/Taxonomy.antt =====
-- What the classifier promises: receivables come from the overdue event alone, and gateway codes
-- are read whatever their case.
use recova.Prelude.{String, ◌≡◌, ◌↔◌, ◌≢◌, refl, true, List, [], ◌∷◌, Option, none, some, arith, ap}
use recova.Prelude.Text.{Text, upper, upper_idem, same_text}
use recova.Constants.{FailureClass}
use recova.Classifier.{
  error_code_to_class, invoice_overdue_event, class_of, class_of_code, classify,
}

-- No code of the table belongs to receivables.
abbrev GatewayOnly : List (String × FailureClass) → Type 0
GatewayOnly [] = Unit
GatewayOnly ((_, fc) ∷ table) = (fc ≢ FailureClass.b2b_receivables) × GatewayOnly table

class_of-ne-b2b :
    (code : Text) (table : List (String × FailureClass))
    → GatewayOnly table
    → class_of code table ≢ some FailureClass.b2b_receivables
unfolding class_of
class_of-ne-b2b code [] g h = cc
class_of-ne-b2b code ((name, fc) ∷ table) g h = ground (arith, class_of-ne-b2b code table g.1)

table-GatewayOnly : GatewayOnly error_code_to_class
table-GatewayOnly = ground arith

class_of_code-ne-b2b : (code : Option Text) → class_of_code code ≢ some FailureClass.b2b_receivables
unfolding class_of_code
class_of_code-ne-b2b none h = cc
class_of_code-ne-b2b (some []) h = cc
class_of_code-ne-b2b (some (c ∷ code)) h =
    class_of-ne-b2b (upper (c ∷ code)) error_code_to_class table-GatewayOnly h

-- A signal is a receivable exactly if its event is invoice.overdue, whatever its error code.
classify-b2b_iff :
    (event_type : Text) (error_code : Option Text)
    → (classify event_type error_code ≡ some FailureClass.b2b_receivables)
      ↔ (same_text event_type invoice_overdue_event ≡ true)
unfolding classify
classify-b2b_iff event_type error_code =
    (λ h. ground (arith, class_of_code-ne-b2b error_code), λ h. rw h)

upper-code : (code : Text) → class_of_code (some (upper code)) ≡ class_of_code (some code)
unfolding class_of_code upper
upper-code [] = refl
upper-code (c ∷ code) =
    ap (λ (t : Text). class_of t error_code_to_class) (unfold upper in upper_idem (c ∷ code))

-- The upper-case form of an error code has the class of the code itself.
classify-upper :
    (event_type code : Text)
    → classify event_type (some (upper code)) ≡ classify event_type (some code)
unfolding classify
classify-upper event_type code = rw (upper-code code)
