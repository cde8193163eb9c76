-- ===== src/Reply/Understanding.antt =====
-- Backend/application/operations/reply_understanding.py: dates, readings, intents and `read_reply`.
use recova.Prelude.{
  ℕ, Bool, true, false, ◌&&◌, ◌||◌, Option, none, some, List, [], ◌∷◌, any, leb, ◌==◌, is_some,
  if◌then◌else◌,
}
use recova.Prelude.Text.{Text, codes, is_in}
use recova.Constants.{StoppingRule}
use recova.Compliance.{Disposition, MessageVerdict, screen_user_message}
use recova.Dates.{Date, days_in_month, add_days, nth_of_month}
use recova.Promise.{extract_p2p_date}
use recova.Reply.{already_paid_gate, hardship_gate, commit_gate, Probabilities, Note, verdict_of}

-- The options of the question `p2p_when`.
pub data When : Type 0 where
  today tomorrow day_after_tomorrow next_week month_end in_n_days day_of_month not_stated : When

abbrev pub numbered : (ℕ → Date) → Option ℕ → Option Date
numbered f none = none
numbered f (some n) = some (f n)

abbrev pub or_numbered : Option Date → Option Date → Option Date
or_numbered (some d) later = some d
or_numbered none later = later

-- `_resolve_date`
unfoldable pub resolve_date : When → Option ℕ → Text → Date → Option Date
resolve_date When.today number text day = some day
resolve_date When.tomorrow number text day = some (add_days 1 day)
resolve_date When.day_after_tomorrow number text day = some (add_days 2 day)
resolve_date When.next_week number text day = some (add_days 7 day)
resolve_date When.month_end number text day =
    some (record day { day = days_in_month day.year day.month })
resolve_date When.in_n_days number text day = numbered (λ n. add_days n day) number
resolve_date When.day_of_month number text day =
    or_numbered
      (if is_in (codes "/") text || is_in (codes "-") text then extract_p2p_date text day else none)
      (numbered (λ n. nth_of_month n day) number)
resolve_date When.not_stated number text day = none

-- Jev's answers to the questions of one reply. The pick of a number or an amount is what was
-- chosen among the offered ones.
pub record Judgments : Type 0 where
  pub p : Probabilities
  pub when : When
  pub number_pick : Option ℕ
  pub offer_pick : Option ℕ

pub data Source : Type 0 where
  jev keyword empty : Source

pub record ReplyReading : Type 0 where
  pub verdict : MessageVerdict
  pub source : Source
  pub p2p_date : Option Date
  pub commits_to_pay : Bool
  pub already_paid : Bool
  pub hardship : Bool
  pub offer_amount_minor : Option ℕ
  pub note : Option Note

-- The labels of `user_intent_detected`.
pub data Intent : Type 0 where
  rule : StoppingRule → Intent
  already_paid hardship partial_offer promise_to_pay : Intent

abbrev pub soft_intent : ReplyReading → Option Intent
soft_intent r =
    if r.already_paid
    then some already_paid
    else if r.hardship
    then some hardship
    else if is_some r.offer_amount_minor
    then some partial_offer
    else if r.commits_to_pay
    then some promise_to_pay
    else none

abbrev pub ruled_intent : Option StoppingRule → Option Intent → Option Intent
ruled_intent (some r) other = some (rule r)
ruled_intent none other = other

-- `ReplyReading.intent`
unfoldable pub intent_of : ReplyReading → Option Intent
intent_of r = ruled_intent r.verdict.rule (soft_intent r)

abbrev pub continues : Disposition → Bool
continues Disposition.continue = true
continues _ = false

-- `keyword_reading`
unfoldable pub keyword_reading : Text → Date → ReplyReading
keyword_reading text day =
    let verdict = screen_user_message text in
    let p2p : Option Date =
      if continues verdict.disposition then extract_p2p_date text day else none in
    record {
      verdict = verdict;
      source = Source.keyword;
      p2p_date = p2p;
      commits_to_pay = is_some p2p;
      already_paid = false;
      hardship = false;
      offer_amount_minor = none;
      note = none;
    }

-- `int(number_pick) if number_pick.isdigit() and int(number_pick) in days else None`
abbrev pub offered_number : List ℕ → Option ℕ → Option ℕ
offered_number days none = none
offered_number days (some n) = if any (λ d. n == d) days then some n else none

-- `amounts.get(offer_pick)`
abbrev pub offered_amount : List (ℕ × ℕ) → Option ℕ → Option ℕ
offered_amount amounts none = none
offered_amount [] (some label) = none
offered_amount ((name, paise) ∷ amounts) (some label) =
    if name == label then some paise else offered_amount amounts (some label)

abbrev pub judged_reading :
    Text → List ℕ → List (ℕ × ℕ) → Date → Judgments → MessageVerdict × Option Note → ReplyReading
judged_reading text days amounts day j (verdict, note) =
    let commits = leb commit_gate j.p.commits_to_pay in
    record {
      verdict = verdict;
      source = Source.jev;
      p2p_date =
          if commits && continues verdict.disposition
          then resolve_date j.when (offered_number days j.number_pick) text day
          else none;
      commits_to_pay = commits;
      already_paid = leb already_paid_gate j.p.claims_already_paid;
      hardship = leb hardship_gate j.p.hardship;
      offer_amount_minor = if commits then offered_amount amounts j.offer_pick else none;
      note = note;
    }

-- `read_reply` on a reply that is not blank, from Jev's answers on; `none` is an exception
unfoldable pub read_reply :
    Text → List ℕ → List (ℕ × ℕ) → Date → Option Judgments → Option ReplyReading
unfolding keyword_reading verdict_of
read_reply text days amounts day none = some (keyword_reading text day)
read_reply text days amounts day (some j) = elim (verdict_of j.p (screen_user_message text)) [
  | none ↦ none
  | some v ↦ some (judged_reading text days amounts day j v)
]
