-- ===== src/Tests/Sessions.antt =====
-- Concrete requests of a live session.
use recova.Prelude.{refl, true, none, some, []}
use recova.Prelude.Text.{codes, is_in, lower}
use recova.Constants.{StoppingRule, AgentTool}
use recova.Compliance.{is_within_quiet_hours, screen_user_message, mentions}
use recova.Reply.Understanding.{ReplyReading, keyword_reading, read_reply}
use recova.Database.{find_txn}
use recova.Thread.Order.{IsNumbered, seqs_of, run_from}
use recova.Live.{Stage, Theatre}
use recova.Live.Cycle.{ToolArgs, fresh_session, run_agent_tool, seed_prior_interventions}
use recova.Live.Voice.{close}
use recova.Live.Dialogue.{Hearing, reading_of}
use recova.Live.Answer.{reply}
use recova.Live.Evolution.{Evolves}
use recova.Live.Mute.{Mute}
use recova.Live.Histories.{History, Request, history-Evolves, history-IsNumbered}
use recova.Live.Stops.{reply-stops, Stopped}
use recova.Live.Quiet.{run_agent_tool-quiet}
use recova.Live.Seeds.{seed-counts, Counted}
use recova.Tests.Samples.{
  some_day, noon, evening, policy, case_7, shop, providers, answer, stop_text,
}

abbrev theatre : Theatre
theatre = record {
  session_id = 31;
  transaction_id = 7;
  clock = noon;
  today = some_day;
  policy = policy;
  providers = providers;
  partial_plan_default_days = 14;
  demo_deadline = none;
  fit_link = λ _ text. text;
}

abbrev night : Theatre
night = record theatre { clock = evening }

abbrev stage : Stage
stage = record {
  store = shop;
  calls = [];
  turns = [];
  next_call = 1;
  session = record fresh_session { started = true };
}

abbrev hearing : Hearing
hearing = record {
  days = [];
  amounts = [];
  judgments = none;
  draft = codes "Noted.";
  payload = answer;
  opening_draft = codes "Hi.";
}

abbrev stop_reading : ReplyReading
stop_reading = keyword_reading stop_text some_day

reply-stops_example :
    Stopped theatre stage case_7 stop_reading.verdict.disposition
      (reply theatre hearing stop_text stage)
unfolding find_txn reading_of read_reply keyword_reading screen_user_message mentions is_in lower
reply-stops_example =
    reply-stops theatre hearing stop_text stage case_7 stop_reading StoppingRule.opt_out refl refl
      refl refl refl refl refl

abbrev replied_then_closed : History 7 stage (close (reply theatre hearing stop_text stage).1).1
replied_then_closed =
    History.continues theatre (reply theatre hearing stop_text stage).1
      (close (reply theatre hearing stop_text stage).1).1 refl
      (History.continues theatre stage (reply theatre hearing stop_text stage).1 refl History.opens
        (Request.replies hearing stop_text stage))
      (Request.closes (reply theatre hearing stop_text stage).1)

history-Evolves_example : Evolves 7 stage (close (reply theatre hearing stop_text stage).1).1
history-Evolves_example =
    history-Evolves 7 stage (close (reply theatre hearing stop_text stage).1).1 replied_then_closed

no_messages-IsNumbered : IsNumbered []
unfolding seqs_of run_from
no_messages-IsNumbered = record { dense = λ key. refl }

history-IsNumbered_example :
    IsNumbered (close (reply theatre hearing stop_text stage).1).1.store.messages
history-IsNumbered_example =
    history-IsNumbered 7 stage (close (reply theatre hearing stop_text stage).1).1
      replied_then_closed no_messages-IsNumbered

abbrev named_args : ToolArgs
named_args = record {
  first_payment_inr = none;
  amount_inr = some 60000;
  partial_amount_inr = none;
  deadline_days = none;
}

run_agent_tool-quiet_example :
    Mute stage (run_agent_tool night (some AgentTool.generate_payment_link) named_args stage).1
unfolding is_within_quiet_hours
run_agent_tool-quiet_example =
    run_agent_tool-quiet night (some AgentTool.generate_payment_link) named_args stage refl

seed-counts_example : Counted theatre 2 1 stage (seed_prior_interventions theatre 2 1 stage)
seed-counts_example = seed-counts theatre 2 1 stage
