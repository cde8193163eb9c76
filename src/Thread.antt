-- ===== src/Thread.antt =====
-- Backend/application/operations/live_session.py: `add_message`, and entities/message_record.py: the
-- message threads of the cases. A message's wording is a text, or the template with its figures.
pub mod Order
use recova.Prelude.{ℕ, suc, max, Option, none, some, List, [], ◌∷◌, ◌++◌, ◌==◌, if◌then◌else◌}
use recova.Prelude.Text.{Text}
use recova.Constants.{ArtifactStatus}
use recova.Compliance.{MessageVerdict}

-- `MessageDirection`
pub data Direction : Type 0 where
  inbound outbound : Direction

-- `MessageSender`
pub data Sender : Type 0 where
  customer agent system : Sender

-- What a message says; sums in rupees, as they are printed.
pub data Body : Type 0 where
  words : Text → Body
  seeded_nudge : ℕ → Body
  stop_notice : MessageVerdict → Body
  balance_overdue : ℕ → Body
  payment_received balance_cleared : ℕ → Body
  payment_in_part : ℕ → ℕ → Body

-- `Message`, with the artifact that its metadata carries, if any.
pub record ThreadRow : Type 0 where
  pub transaction_id : ℕ
  pub direction : Direction
  pub sender : Sender
  pub body : Body
  pub seq : ℕ
  pub artifact : Option (ℕ × ArtifactStatus)

-- `(last.seq + 1) if last else 0`, where `last` has the highest number of the case
unfoldable pub next_seq : ℕ → List ThreadRow → ℕ
next_seq key [] = 0
next_seq key (m ∷ rest) =
    let later = next_seq key rest in
    if m.transaction_id == key then max (suc m.seq) later else later

-- the row that `add_message` adds
unfoldable pub new_message :
    ℕ → Direction → Sender → Body → Option (ℕ × ArtifactStatus) → List ThreadRow → ThreadRow
new_message key direction sender body artifact messages = record {
  transaction_id = key;
  direction = direction;
  sender = sender;
  body = body;
  seq = next_seq key messages;
  artifact = artifact;
}

-- `add_message`
unfoldable pub add_message :
    ℕ → Direction → Sender → Body → Option (ℕ × ArtifactStatus) → List ThreadRow → List ThreadRow
add_message key direction sender body artifact messages =
    messages ++ new_message key direction sender body artifact messages ∷ []
