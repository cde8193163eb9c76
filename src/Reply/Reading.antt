-- ===== src/Reply/Reading.antt =====
-- What a reading hands on: promises, offers, and the fallback on the keyword screen.
use recova.Prelude.{
  ℕ, ◌≡◌, refl, true, Option, none, some, List, arith, inl, inr, Option-cases, is_some,
}
use recova.Prelude.Text.{Text}
use recova.Dates.{Date}
use recova.Compliance.{Disposition, MessageVerdict, screen_user_message}
use recova.Reply.{Note, verdict_of}
use recova.Reply.Understanding.{
  Judgments, ReplyReading, judged_reading, keyword_reading, read_reply,
}
use recova.Reply.Verdict.{verdict-total}

-- A date is recorded only for a case that goes on, and an amount only from someone who commits.
pub record IsCautious (r : ReplyReading) : Type 0 where
  pub dated : is_some r.p2p_date ≡ true → r.verdict.disposition ≡ Disposition.continue
  pub committed : is_some r.p2p_date ≡ true → r.commits_to_pay ≡ true
  pub offered : is_some r.offer_amount_minor ≡ true → r.commits_to_pay ≡ true

keyword_reading-IsCautious : (text : Text) (day : Date) → IsCautious (keyword_reading text day)
unfolding keyword_reading
keyword_reading-IsCautious text day = ground arith

judged_reading-IsCautious :
    (text : Text) (days : List ℕ) (amounts : List (ℕ × ℕ)) (day : Date) (j : Judgments)
    (v : MessageVerdict × Option Note)
    → IsCautious (judged_reading text days amounts day j v)
judged_reading-IsCautious text days amounts day j (v, n) = ground arith

-- A reading comes back whatever Jev answers, or if it does not answer; a date is recorded only for
-- a case that goes on, and a date or an amount only from a customer who commits.
pub read_reply-IsCautious :
    (text : Text) (days : List ℕ) (amounts : List (ℕ × ℕ)) (day : Date) (j : Option Judgments)
    → (r : ReplyReading) × (read_reply text days amounts day j ≡ some r) × IsCautious r
unfolding read_reply
read_reply-IsCautious text days amounts day none =
    (keyword_reading text day, refl, keyword_reading-IsCautious text day)
read_reply-IsCautious text days amounts day (some j) =
    elim (Option-cases (verdict_of j.p (screen_user_message text))) [
      | inl failed ↦ absurd (impossible failed)
      | inr (v, found) ↦ (
        judged_reading text days amounts day j v,
        rw (found, read_reply),
        judged_reading-IsCautious text days amounts day j v,
      )
    ]
  where
    impossible : verdict_of j.p (screen_user_message text) ≡ none → ⊥
    impossible failed = cc (failed, verdict-total j.p text)
