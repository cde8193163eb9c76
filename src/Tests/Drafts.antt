-- ===== src/Tests/Drafts.antt =====
-- Concrete drafts, on a bill of ₹4,000.
use recova.Prelude.{◌≡◌, ◌↔◌, refl, true, none, some, [], ◌∷◌}
use recova.Policy.{round_half_even}
use recova.Draft.{
  Judgments, Reason, mentions_more, candidate, overpromises, refused_partial, small_partial, judged,
  check_draft,
}
use recova.Draft.Fit.{IsFit, check_draft-ok_iff}
use recova.Tests.Samples.{policy}

-- half now and half later
abbrev halves : Judgments
halves = record {
  coercive = 100;
  off_topic = 100;
  leaks_internal = 100;
  promises_discount = 100;
  agrees_to_partial = 9000;
  upfront_amount = some 2000;
}

halves_pass : (check_draft policy 400000 (200000 ∷ []) [] (some halves)).ok ≡ true
unfolding check_draft mentions_more judged overpromises refused_partial small_partial candidate
    round_half_even
halves_pass = refl

small_part_blocked :
    (check_draft policy 400000
      (100000 ∷ 300000 ∷ [])
      []
      (some (record halves { upfront_amount = some 1000 }))).reasons
    ≡ Reason.below_policy_minimum ∷ []
unfolding check_draft mentions_more judged overpromises refused_partial small_partial candidate
    round_half_even
small_part_blocked = refl

above_bill_blocked :
    (check_draft policy 400000 (4000000 ∷ []) [] none).reasons ≡ Reason.above_bill ∷ []
unfolding check_draft mentions_more judged
above_bill_blocked = refl

check_draft-ok_iff_example :
    ((check_draft policy 400000 (200000 ∷ []) [] (some halves)).ok ≡ true)
    ↔ IsFit policy 400000 (200000 ∷ []) [] (some halves)
check_draft-ok_iff_example = check_draft-ok_iff policy 400000 (200000 ∷ []) [] (some halves)
