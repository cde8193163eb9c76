-- ===== src/Policy.antt =====
-- Backend/application/operations/policy_guard.py: the sandbox that every proposed action must
-- clear. Amounts are in paise; a discount is in hundredths of a percent; a percentage of the bill
-- is an exact fraction rounded to two places, half to even.
pub mod Rounding
pub mod Permitted
pub mod Gate
pub mod Store
pub mod Edits
use recova.Prelude.{
  ℕ, ◌+◌, ◌*◌, ◌/◌, ◌%◌, min, String, Bool, true, false, ◌&&◌, ◌||◌, not, Option, none, some, List,
  [], ◌∷◌, ltb, leb, ◌==◌, if◌then◌else◌,
}
use recova.Prelude.Int.{Number, exceeds}
use recova.Constants.{Action, Channel, action_value, channel_value, contains, same_string}

-- `InterventionAction | str` and `InterventionChannel | str`
pub data ActionName : Type 0 where
  known : Action → ActionName
  named : String → ActionName

pub data ChannelName : Type 0 where
  known : Channel → ChannelName
  named : String → ChannelName

pub record ProposedAction : Type 0 where
  pub action : ActionName
  pub channel : Option ChannelName
  pub discount_pct : Option Number
  pub amount_minor : Option ℕ
  pub total_amount_minor : Option ℕ
  pub is_partial : Option Bool

-- `ProposedAction.action_value`
abbrev pub proposed_action_value : ActionName → String
proposed_action_value (ActionName.known a) = action_value a
proposed_action_value (ActionName.named s) = s

-- `ProposedAction.channel_value`
abbrev pub proposed_channel_value : ChannelName → String
proposed_channel_value (ChannelName.known c) = channel_value c
proposed_channel_value (ChannelName.named s) = s

-- The sentences of a decision, with the figures that they quote.
pub data PolicyReason : Type 0 where
  action_not_permitted channel_not_permitted : String → PolicyReason
  partial_not_permitted approved_by_policy : PolicyReason
  partial_below_minimum : ℕ → PolicyReason
  discount_exceeds_cap : ℕ → PolicyReason
  amount_exceeds_ceiling : ℕ → ℕ → PolicyReason

pub record Decision : Type 0 where
  pub approved : Bool
  pub reason : PolicyReason

-- The attributes of a `PolicySandbox`.
pub record Sandbox : Type 0 where
  pub max_discount_pct : ℕ
  pub max_amount_minor : Option ℕ
  pub allow_partial_payment : Bool
  pub min_partial_payment_pct : ℕ
  pub allowed_channels : List String
  pub allowed_actions : List String

-- `_MONEY_MOVING_ACTIONS`
abbrev pub money_moving_actions : List String
money_moving_actions =
    action_value Action.generate_payment_link
    ∷ action_value Action.generate_qr_code
    ∷ action_value Action.offer_partial_plan
    ∷ action_value Action.retry_charge
    ∷ action_value Action.offer_fee_waiver
    ∷ []

-- The nearest integer to n / d, half to even.
unfoldable pub round_half_even : ℕ → ℕ → ℕ
round_half_even n d =
    let q = n / d in
    let twice = 2 * (n % d) in
    if ltb twice d then q else if ltb d twice then q + 1 else if q % 2 == 0 then q else q + 1

-- `action.amount_minor < action.total_amount_minor`, both present
abbrev pub asks_less : Option ℕ → Option ℕ → Bool
asks_less (some amount) (some total) = ltb amount total
asks_less (some amount) none = false
asks_less none _ = false

abbrev pub is_true : Option Bool → Bool
is_true (some b) = b
is_true none = false

-- the local `is_partial` of `validate`
unfoldable pub counts_as_partial : ProposedAction → Bool
counts_as_partial a =
    is_true a.is_partial
    || same_string (proposed_action_value a.action) (action_value Action.offer_partial_plan)
    || asks_less a.amount_minor a.total_amount_minor

-- `min(total, ceiling) if ceiling else total`
abbrev pub partial_base : Option ℕ → ℕ → ℕ
partial_base none total = total
partial_base (some ceiling) total = if ceiling == 0 then total else min total ceiling

-- `round(amount / base * 100, 2)`, in hundredths of a percent
abbrev pub partial_pct : Option ℕ → ℕ → ℕ → ℕ
partial_pct ceiling amount total = round_half_even (amount * 10000) (partial_base ceiling total)

-- the percentage test, for a proposal that names both amounts
unfoldable pub below_minimum : Sandbox → Option ℕ → Option ℕ → Bool
below_minimum p (some amount) (some total) =
    ltb 0 total
    && ltb (partial_pct p.max_amount_minor amount total) (p.min_partial_payment_pct * 100)
below_minimum p (some amount) none = false
below_minimum p none _ = false

unfoldable pub over_discount : Sandbox → Option Number → Bool
over_discount p none = false
over_discount p (some d) = exceeds d (p.max_discount_pct * 100)

unfoldable pub over_ceiling : Option ℕ → Option ℕ → Bool
over_ceiling (some ceiling) (some amount) = ltb ceiling amount
over_ceiling (some ceiling) none = false
over_ceiling none _ = false

unfoldable pub channel_refused : Sandbox → Option ChannelName → Bool
channel_refused p none = false
channel_refused p (some c) = not (contains (proposed_channel_value c) p.allowed_channels)

-- `action.action_value in self._allowed_actions`
unfoldable pub action_listed : Sandbox → ProposedAction → Bool
action_listed p a = contains (proposed_action_value a.action) p.allowed_actions

-- `action.action_value in _MONEY_MOVING_ACTIONS`
unfoldable pub moves_money : ProposedAction → Bool
moves_money a = contains (proposed_action_value a.action) money_moving_actions

abbrev pub channel_text : Option ChannelName → String
channel_text none = ""
channel_text (some c) = proposed_channel_value c

abbrev pub quoted : Option ℕ → ℕ
quoted none = 0
quoted (some n) = n

abbrev pub refuse : PolicyReason → Decision
refuse r = record { approved = false; reason = r }

-- `PolicySandbox.validate`
unfoldable pub validate : Sandbox → ProposedAction → Decision
validate p a =
    if not (action_listed p a)
    then refuse (action_not_permitted (proposed_action_value a.action))
    else if channel_refused p a.channel
    then refuse (channel_not_permitted (channel_text a.channel))
    else if counts_as_partial a && not p.allow_partial_payment
    then refuse partial_not_permitted
    else if counts_as_partial a && below_minimum p a.amount_minor a.total_amount_minor
    then refuse (partial_below_minimum p.min_partial_payment_pct)
    else if over_discount p a.discount_pct
    then refuse (discount_exceeds_cap p.max_discount_pct)
    else if moves_money a && over_ceiling p.max_amount_minor a.amount_minor
    then refuse (amount_exceeds_ceiling (quoted a.amount_minor) (quoted p.max_amount_minor))
    else record { approved = true; reason = approved_by_policy }
