-- ===== src/Tests/Merchant.antt =====
-- Concrete policies and edits.
use recova.Prelude.{◌≡◌, ◌≤◌, ◌+◌, ◌*◌, refl, true, none, some, arith}
use recova.Prelude.Int.{pos}
use recova.Prelude.Outcome.{Error}
use recova.Constants.{Action, Channel}
use recova.Policy.{
  ActionName, ChannelName, ProposedAction, validate, partial_base, action_listed, channel_refused,
  counts_as_partial, below_minimum, over_discount, over_ceiling, moves_money, round_half_even,
}
use recova.Policy.Gate.{validate-partial_floor}
use recova.Policy.Store.{PolicyRow, PolicyPatch, defaults, row_of, update_policy, sandbox_for}
use recova.Policy.Edits.{IsSound, update_policy-IsSound, update_policy-refused}
use recova.Tests.Samples.{policy}

abbrev half_plan : ProposedAction
half_plan = record {
  action = ActionName.known Action.offer_partial_plan;
  channel = some (ChannelName.known Channel.payment_link);
  discount_pct = none;
  amount_minor = some 50000;
  total_amount_minor = some 100000;
  is_partial = some true;
}

abbrev one_edit : PolicyPatch
one_edit = record {
  max_discount_pct = some (pos 10);
  max_intervention_amount_minor = none;
  allow_partial_payment = none;
  min_partial_payment_pct = none;
  allowed_actions = none;
  allowed_channels = none;
}

abbrev bad_edit : PolicyPatch
bad_edit = record one_edit { min_partial_payment_pct = some (pos 101) }

abbrev edited : PolicyRow
edited = record defaults { max_discount_pct = 10 }

defaults-IsSound : IsSound (row_of none)
unfolding row_of
defaults-IsSound = record {
  discount = omega arith;
  minimum = omega arith;
  actions = refl;
  channels = refl;
}

validate-partial_floor_example :
    200 * (policy.min_partial_payment_pct * partial_base policy.max_amount_minor 100000)
    ≤ 20000 * 50000 + partial_base policy.max_amount_minor 100000
unfolding validate action_listed channel_refused counts_as_partial below_minimum over_discount
    over_ceiling moves_money round_half_even
validate-partial_floor_example =
    validate-partial_floor policy half_plan 50000 100000 refl refl (omega arith) refl

update_policy-IsSound_example :
    IsSound edited × ((update_policy one_edit none).1.table ≡ some edited)
unfolding update_policy
update_policy-IsSound_example = update_policy-IsSound one_edit none defaults-IsSound edited refl

-- The discount is edited before the minimum is refused.
half_edited : (update_policy bad_edit none).1.row ≡ edited
unfolding update_policy
half_edited = refl

update_policy-refused_example :
    (sandbox_for (update_policy bad_edit none).1.table ≡ sandbox_for none)
    × IsSound (update_policy bad_edit none).1.row
unfolding update_policy
update_policy-refused_example =
    update_policy-refused bad_edit none Error.policy_validation defaults-IsSound refl
