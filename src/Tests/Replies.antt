-- ===== src/Tests/Replies.antt =====
-- Concrete replies of customers.
use recova.Prelude.{◌≡◌, ◌↔◌, ◌⊎◌, refl, none, some, [], inl, inr}
use recova.Prelude.Text.{codes, lower}
use recova.Compliance.{Disposition, screen_user_message}
use recova.Compliance.Screen.{screen-honours_stop, screen-explained, Explains}
use recova.Reply.{verdict_of}
use recova.Reply.Understanding.{ReplyReading, read_reply}
use recova.Reply.Verdict.{verdict-Continues_iff, Continues, IsClear}
use recova.Reply.Reading.{read_reply-IsCautious, IsCautious}
use recova.Tests.Samples.{some_day, stop_text, calm}

screen-honours_stop_example :
    (screen_user_message (codes "please STOP now")).disposition ≡ Disposition.terminate
unfolding lower
screen-honours_stop_example =
    screen-honours_stop (codes "please STOP now") (codes "stop") (inr (inl refl))
      (codes "please ", codes " now", refl)

screen-explained_example :
    ((screen_user_message stop_text).disposition ≡ Disposition.continue)
    ⊎ Explains stop_text
        (screen_user_message stop_text).disposition
        (screen_user_message stop_text).rule
screen-explained_example = screen-explained stop_text

verdict-Continues_iff_example :
    Continues (verdict_of calm (screen_user_message stop_text))
    ↔ IsClear calm (screen_user_message stop_text).rule
verdict-Continues_iff_example = verdict-Continues_iff calm stop_text

read_reply-IsCautious_example :
    (r : ReplyReading) × (read_reply (codes "parso dunga") [] [] some_day none ≡ some r)
    × IsCautious r
read_reply-IsCautious_example = read_reply-IsCautious (codes "parso dunga") [] [] some_day none
