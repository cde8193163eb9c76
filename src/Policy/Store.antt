-- ===== src/Policy/Store.antt =====
-- Backend/application/operations/policy_repository.py: the stored merchant policy. The table holds
-- at most the row with id 1. An edit writes to the row object of the session, which reaches the table
-- by the final commit; an edit that raises leaves the object as far as it was edited.
use recova.Prelude.{
  ℕ, String, Bool, true, ◌&&◌, not, Option, none, some, List, [], ◌∷◌, ◌++◌, all, keep, or_else,
  if◌then◌else◌,
}
use recova.Prelude.Int.{ℤ, pos, pos_part, leb_ℤ, ltb_ℤ}
use recova.Prelude.Outcome.{Run, Result, ok, err, policy_validation, ◌>>◌}
use recova.Constants.{Action, Channel, action_value, channel_value, contains}
use recova.Policy.{Sandbox}

-- `MerchantPolicy`; a column added by a migration may hold NULL.
pub record PolicyRow : Type 0 where
  pub max_discount_pct : ℕ
  pub max_intervention_amount_minor : ℕ
  pub allow_partial_payment : Option Bool
  pub min_partial_payment_pct : Option ℕ
  pub allowed_actions : List String
  pub allowed_channels : List String

-- The table: the row with id 1, if it is there.
abbrev pub PolicyTable : Type 0
PolicyTable = Option PolicyRow

abbrev pub all_channels : List String
all_channels =
    channel_value Channel.whatsapp
    ∷ channel_value Channel.voice
    ∷ channel_value Channel.payment_link
    ∷ []

-- `_ALLOWED_ACTIONS`
abbrev pub all_actions : List String
all_actions =
    action_value Action.send_whatsapp
    ∷ action_value Action.voice_call
    ∷ action_value Action.offer_fee_waiver
    ∷ action_value Action.generate_payment_link
    ∷ action_value Action.generate_qr_code
    ∷ action_value Action.offer_partial_plan
    ∷ action_value Action.retry_charge
    ∷ action_value Action.cancel_subscription
    ∷ []

-- merchant_rules.json, as `_defaults` reads it
abbrev pub defaults : PolicyRow
defaults = record {
  max_discount_pct = 15;
  max_intervention_amount_minor = 1000000;
  allow_partial_payment = some true;
  min_partial_payment_pct = some 50;
  allowed_actions = all_actions;
  allowed_channels = all_channels;
}

-- the `else` branch of `_row`: NULL columns take their defaults
abbrev pub filled : PolicyRow → PolicyRow
filled row = record row {
  allow_partial_payment = some (or_else row.allow_partial_payment true);
  min_partial_payment_pct = some (or_else row.min_partial_payment_pct 50);
}

-- `_row`: the row, with what it commits to the table
unfoldable pub row_of : PolicyTable → PolicyRow
row_of none = defaults
row_of (some row) = filled row

-- `PolicySandbox(row.as_dict())`
unfoldable pub sandbox_of : PolicyRow → Sandbox
sandbox_of row = record {
  max_discount_pct = row.max_discount_pct;
  max_amount_minor = some row.max_intervention_amount_minor;
  allow_partial_payment = or_else row.allow_partial_payment true;
  min_partial_payment_pct = or_else row.min_partial_payment_pct 50;
  allowed_channels = row.allowed_channels;
  allowed_actions = row.allowed_actions;
}

-- `sandbox_for`
unfoldable pub sandbox_for : PolicyTable → Sandbox
unfolding row_of sandbox_of
sandbox_for table = sandbox_of (row_of table)

-- `_BACKFILL_ACTIONS`
abbrev pub backfill_actions : List String
backfill_actions =
    action_value Action.generate_qr_code ∷ action_value Action.offer_partial_plan ∷ []

-- `[a for a in _BACKFILL_ACTIONS if a not in current]`
unfoldable pub missing_actions : List String → List String
missing_actions current = keep (λ a. not (contains a current)) backfill_actions

-- `backfill_default_actions`, with the actions that it added
unfoldable pub backfill_default_actions : PolicyTable → List String × PolicyTable
unfolding row_of missing_actions
backfill_default_actions table =
    let row = row_of table in
    let added = missing_actions row.allowed_actions in
    (added, some (record row { allowed_actions = row.allowed_actions ++ added }))

-- The patch of `update_policy`: an absent key is `none`.
pub record PolicyPatch : Type 0 where
  pub max_discount_pct : Option ℤ
  pub max_intervention_amount_minor : Option ℤ
  pub allow_partial_payment : Option Bool
  pub min_partial_payment_pct : Option ℤ
  pub allowed_actions : Option (List String)
  pub allowed_channels : Option (List String)

abbrev pub percent_in_range : ℤ → Bool
percent_in_range v = leb_ℤ (pos 0) v && leb_ℤ v (pos 100)

-- An assignment to the row object, and a raise.
abbrev pub assign : PolicyRow → Run PolicyRow (Unit {0})
assign new row = (ok tt, new)

abbrev pub refuse_edit : Run PolicyRow (Unit {0})
refuse_edit row = (err policy_validation, row)

abbrev pub edit_discount : Option ℤ → Run PolicyRow (Unit {0})
edit_discount none row = (ok tt, row)
edit_discount (some v) row =
    if percent_in_range v
    then assign (record row { max_discount_pct = pos_part v }) row
    else refuse_edit row

abbrev pub edit_amount : Option ℤ → Run PolicyRow (Unit {0})
edit_amount none row = (ok tt, row)
edit_amount (some v) row =
    if ltb_ℤ v (pos 0)
    then refuse_edit row
    else assign (record row { max_intervention_amount_minor = pos_part v }) row

abbrev pub edit_partial : Option Bool → Run PolicyRow (Unit {0})
edit_partial none row = (ok tt, row)
edit_partial (some v) row = assign (record row { allow_partial_payment = some v }) row

abbrev pub edit_minimum : Option ℤ → Run PolicyRow (Unit {0})
edit_minimum none row = (ok tt, row)
edit_minimum (some v) row =
    if percent_in_range v
    then assign (record row { min_partial_payment_pct = some (pos_part v) }) row
    else refuse_edit row

abbrev pub edit_actions : Option (List String) → Run PolicyRow (Unit {0})
edit_actions none row = (ok tt, row)
edit_actions (some v) row =
    if all (λ a. contains a all_actions) v
    then assign (record row { allowed_actions = v }) row
    else refuse_edit row

abbrev pub edit_channels : Option (List String) → Run PolicyRow (Unit {0})
edit_channels none row = (ok tt, row)
edit_channels (some v) row =
    if all (λ c. contains c all_channels) v
    then assign (record row { allowed_channels = v }) row
    else refuse_edit row

-- the six edits of `update_policy`, in its order, on the row of the session
unfoldable pub edit_row : PolicyPatch → Run PolicyRow (Unit {0})
edit_row patch = do
  edit_discount patch.max_discount_pct
  edit_amount patch.max_intervention_amount_minor
  edit_partial patch.allow_partial_payment
  edit_minimum patch.min_partial_payment_pct
  edit_actions patch.allowed_actions
  edit_channels patch.allowed_channels

-- The row object of the session, and the committed table.
pub record PolicySession : Type 0 where
  pub row : PolicyRow
  pub table : PolicyTable

-- the commit, or the exception, on the table that `_row` left
abbrev pub committed :
    PolicyTable → Result (Unit {0}) × PolicyRow → Result PolicyRow × PolicySession
committed table (ok _, row) = (ok row, record { row = row; table = some row })
committed table (err e, row) = (err e, record { row = row; table = table })

-- `update_policy`
unfoldable pub update_policy : PolicyPatch → PolicyTable → Result PolicyRow × PolicySession
unfolding row_of edit_row
update_policy patch table = let row = row_of table in committed (some row) (edit_row patch row)
