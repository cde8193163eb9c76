-- ===== src/Compliance.antt =====
-- Backend/application/operations/compliance_rules.py: the deterministic safeguards.
pub mod Screen
use recova.Prelude.{ℕ, Bool, ◌||◌, List, [], ◌∷◌, map, String, any, leb, ltb, if◌then◌else◌}
use recova.Prelude.{Option, none, some}
use recova.Prelude.Text.{Text, codes, lower, is_in}
use recova.Constants.{StoppingRule}

abbrev pub rbi_max_retries : ℕ
rbi_max_retries = 3

abbrev pub max_voice_attempts : ℕ
max_voice_attempts = 2

abbrev pub whatsapp_nudge_cap : ℕ
whatsapp_nudge_cap = 3

abbrev pub quiet_hours_start : ℕ
quiet_hours_start = 20

abbrev pub quiet_hours_end : ℕ
quiet_hours_end = 9

pub data Disposition : Type 0 where
  continue terminate escalate : Disposition

abbrev pub cancel_phrases : List Text
cancel_phrases = map codes (
    "cancel my plan" ∷ "cancel the plan" ∷ "cancel my subscription" ∷ "cancel subscription"
    ∷ "cancel karo" ∷ "plan cancel" ∷ [])

abbrev pub opt_out_phrases : List Text
opt_out_phrases = map codes (
    "stop" ∷ "unsubscribe" ∷ "opt out" ∷ "opt-out" ∷ "do not contact" ∷ "don't contact"
    ∷ "leave me alone" ∷ "remove me" ∷ "band karo" ∷ "band kar do" ∷ "mat bhejo" ∷ "rok do" ∷ [])

abbrev pub dispute_phrases : List Text
dispute_phrases = map codes (
    "dispute" ∷ "wrong invoice" ∷ "wrong amount" ∷ "incorrect invoice" ∷ "incorrect line item"
    ∷ "wrong line item" ∷ "didn't order" ∷ "did not order" ∷ "not ordered" ∷ "galat invoice" ∷ [])

-- The sentence of a verdict: a fixed one, or one of `_verdict`'s with the probability it quotes.
pub data Reason : Type 0 where
  asked_to_cancel opted_out raised_dispute no_stopping_intent empty_reply : Reason
  judged : Reason → ℕ → Reason
  keyword_unsure possible : StoppingRule → ℕ → Reason
  says_already_paid describes_hardship : ℕ → Reason

pub record MessageVerdict : Type 0 where
  pub disposition : Disposition
  pub rule : Option StoppingRule
  pub reason : Reason

-- `any(phrase in haystack for phrase in phrases)`
unfoldable pub mentions : List Text → Text → Bool
mentions phrases haystack = any (λ phrase. is_in phrase haystack) phrases

unfoldable pub screen_user_message : Text → MessageVerdict
screen_user_message text =
    let haystack = lower text in
    if mentions cancel_phrases haystack
    then record {
      disposition = Disposition.terminate;
      rule = some StoppingRule.explicit_cancel;
      reason = asked_to_cancel;
    }
    else if mentions opt_out_phrases haystack
    then record {
      disposition = Disposition.terminate;
      rule = some StoppingRule.opt_out;
      reason = opted_out;
    }
    else if mentions dispute_phrases haystack
    then record {
      disposition = Disposition.escalate;
      rule = some StoppingRule.dispute_freeze;
      reason = raised_dispute;
    }
    else record { disposition = Disposition.continue; rule = none; reason = no_stopping_intent }

unfoldable pub retry_cap_exceeded : ℕ → ℕ → Bool
retry_cap_exceeded retry_count max_retries = leb max_retries retry_count

unfoldable pub voice_attempts_exhausted : ℕ → Bool
voice_attempts_exhausted attempts = leb max_voice_attempts attempts

unfoldable pub whatsapp_nudges_exhausted : ℕ → Bool
whatsapp_nudges_exhausted nudges = leb whatsapp_nudge_cap nudges

-- `dt_ist.hour` is what the code reads of the clock
unfoldable pub is_within_quiet_hours : ℕ → Bool
is_within_quiet_hours hour = leb quiet_hours_start hour || ltb hour quiet_hours_end
