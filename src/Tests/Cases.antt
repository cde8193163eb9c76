-- ===== src/Tests/Cases.antt =====
-- Concrete runs of the graph, the gate and the tools.
use recova.Prelude.{Among, ◌≡◌, ◌↔◌, ◌⊎◌, refl, true, false, none, some, [], ◌∷◌, arith}
use recova.Prelude.Text.{is_in, lower}
use recova.Constants.{Action, Channel, AgentTool}
use recova.Compliance.{
  mentions, screen_user_message, voice_attempts_exhausted, whatsapp_nudges_exhausted,
}
use recova.Reply.Understanding.{keyword_reading}
use recova.Database.{find_txn}
use recova.Database.Growth.{Grows}
use recova.Workflow.Execute.{execute}
use recova.Workflow.Silence.{AtMostOneMore}
use recova.Workflow.SingleCall.{invoke-single_call}
use recova.Workflow.Graph.{invoke}
use recova.Workflow.Frame.{invoke-Grows}
use recova.Workflow.Gates.{execute-sends_if_cleared, SentIfCleared}
use recova.Workflow.Runs.{invoke-halts, HaltedAt}
use recova.Tools.{tool_resolution}
use recova.Tools.Branches.{gate_tool}
use recova.Tools.Gate.{gate_tool-IsGated, Concludes, IsGated}
use recova.Tools.Commit.{gate_tool-IsCommitted, IsCommitted}
use recova.Tools.Proposal.{
  decide_tool, gate_proposed, gate_figures, proposed_or_default, switched_tool, offered_tools,
  tool_request, voice_is_permitted,
}
use recova.Tools.Figures.{Figures, read_figures}
use recova.Prelude.Int.{infinity}
use recova.Prelude.Outcome.{err, Error}
use recova.Tools.Readable.{IsReadable}
use recova.Tools.Choice.{
  decide_tool-Decides, Decides, switched_tool-nudges_iff, tool_request-IsBounded, IsBounded,
}
use recova.Tools.Offers.{gate_tool-Among}
use recova.Tests.Samples.{
  some_day, noon, policy, case_7, books, wiring, stopped_run, ready_run, fresh, ask, answer,
}

execute-sends_if_cleared_example :
    SentIfCleared wiring ready_run books (execute wiring ready_run books).1.outbox
execute-sends_if_cleared_example = execute-sends_if_cleared wiring ready_run books

invoke-halts_example : HaltedAt books (invoke wiring stopped_run books)
unfolding keyword_reading screen_user_message mentions is_in lower
invoke-halts_example =
    invoke-halts wiring stopped_run 83 (84 ∷ 79 ∷ 80 ∷ []) books refl (λ e. ground arith)

invoke-Grows_example : Grows 7 books (invoke wiring fresh books).1
invoke-Grows_example = invoke-Grows wiring fresh books

gate_tool-IsGated_example :
    Concludes
      (λ d _.
        IsGated policy case_7 AgentTool.generate_payment_link Action.generate_payment_link
          (some Channel.payment_link)
          ask
          d)
      (gate_tool policy case_7 AgentTool.generate_payment_link ask books)
unfolding tool_resolution
gate_tool-IsGated_example =
    gate_tool-IsGated policy case_7 AgentTool.generate_payment_link ask books
      Action.generate_payment_link (some Channel.payment_link) none refl

gate_tool-IsCommitted_example :
    Concludes (IsCommitted case_7 case_7 books) (gate_tool policy case_7 AgentTool.stop ask books)
unfolding find_txn
gate_tool-IsCommitted_example =
    gate_tool-IsCommitted policy case_7 case_7 AgentTool.stop ask books refl

decide_tool-Decides_example :
    Decides
      (IsCommitted case_7 case_7 books)
      (IsReadable answer none)
      books
      (decide_tool policy policy 7 answer none none none noon some_day books)
unfolding find_txn
decide_tool-Decides_example =
    decide_tool-Decides policy policy case_7 7 answer none none none noon some_day books refl

-- An answer with `"deadline_days": Infinity`.
endless_answer_raises :
    decide_tool policy policy 7
      (record answer { deadline_days = some (some infinity) })
      none
      none
      none
      noon
      some_day
      books
    ≡ (err Error.overflow_error, books)
unfolding decide_tool gate_proposed gate_figures read_figures find_txn proposed_or_default
endless_answer_raises = refl

switched_tool-nudges_iff_example :
    (switched_tool policy AgentTool.send_whatsapp 3 0 ≡ AgentTool.send_whatsapp) ↔ (
      (AgentTool.send_whatsapp ≡ AgentTool.send_whatsapp)
      × ((whatsapp_nudges_exhausted 3 ≡ false)
          ⊎ (voice_attempts_exhausted 0 ≡ true)
          ⊎ (voice_is_permitted policy ≡ false)))
switched_tool-nudges_iff_example = switched_tool-nudges_iff policy AgentTool.send_whatsapp 3 0

-- The figures of the sample answer, which names none.
abbrev no_figures : Figures
no_figures = record { discount_pct = none; request_amount_minor = none; deadline_days = none }

tool_request-IsBounded_example :
    IsBounded case_7
      (tool_request policy answer no_figures AgentTool.offer_partial_plan 0 0 noon some_day)
unfolding read_figures
tool_request-IsBounded_example =
    tool_request-IsBounded policy case_7 answer none no_figures AgentTool.offer_partial_plan 0 0
      noon some_day refl

invoke-single_call_example : AtMostOneMore books.outbox (invoke wiring fresh books).1.outbox
invoke-single_call_example = invoke-single_call wiring fresh books

gate_tool-Among_example :
    Concludes
      (λ d _. (d.allowed ≡ false) ⊎ Among AgentTool.generate_payment_link (offered_tools policy))
      (gate_tool policy case_7 AgentTool.generate_payment_link ask books)
unfolding tool_resolution
gate_tool-Among_example =
    gate_tool-Among policy case_7 AgentTool.generate_payment_link ask books
      Action.generate_payment_link (some Channel.payment_link) none refl
