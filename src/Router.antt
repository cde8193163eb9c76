-- ===== src/Router.antt =====
-- Backend/application/operations/model_router.py: the tier and the provider of an advisory call. What a
-- provider answers, the test of an answer and the settings are arguments; the wording, the model's
-- name, the latency and the tokens are left out. Amounts are paise, shares hundredths of a percent.
pub mod Tiers
use recova.Prelude.{
  ℕ, zero, suc, ◌+◌, min, Bool, true, false, ◌||◌, Option, none, some, List, [], ◌∷◌, ◌++◌, leb,
  ◌==◌, length, if◌then◌else◌,
}
use recova.Prelude.Text.{Text}

-- `TASKS` and `TIERS`
pub data Task : Type 0 where
  classify draft diagnose converse decide : Task

pub data Tier : Type 0 where
  nano mini full : Tier

pub data Provider : Type 0 where
  openai gemini : Provider

-- `_TIER_INDEX`
abbrev pub tier_index : Tier → ℕ
tier_index Tier.nano = 0
tier_index Tier.mini = 1
tier_index Tier.full = 2

-- `_TASK_FLOORS`
unfoldable pub task_floor : Task → Tier
task_floor Task.classify = Tier.nano
task_floor Task.draft = Tier.nano
task_floor Task.diagnose = Tier.mini
task_floor Task.converse = Tier.mini
task_floor Task.decide = Tier.full

-- `_raise_tier` by one step
unfoldable pub raise_tier : Tier → Tier
raise_tier Tier.nano = Tier.mini
raise_tier Tier.mini = Tier.full
raise_tier Tier.full = Tier.full

-- `_provider_order`, on the override or the setting
unfoldable pub provider_order : Option Provider → List Provider
provider_order (some Provider.gemini) = Provider.gemini ∷ Provider.openai ∷ []
provider_order _ = Provider.openai ∷ Provider.gemini ∷ []

-- The keyword arguments of `explain_route` that decide the tier.
pub record Stakes : Type 0 where
  pub threshold_minor : ℕ
  pub amount_minor : ℕ
  pub retries_used : ℕ
  pub max_retries : ℕ
  pub voice_attempts : ℕ
  pub voice_attempt_cap : ℕ
  pub discount_pct : Option ℕ
  pub policy_cap_pct : Option ℕ
  pub live : Bool

pub data Raiser : Type 0 where
  stakes guardrail_proximity : Raiser

-- `discount_pct >= policy_cap_pct - 2`
abbrev pub is_near_cap : Option ℕ → Option ℕ → Bool
is_near_cap (some discount) (some cap) = leb cap (discount + 200)
is_near_cap _ _ = false

-- the tests of `proximity`
unfoldable pub is_proximate : Stakes → Bool
is_proximate s =
    s.retries_used + 1 == s.max_retries
    || (s.voice_attempts + 1 == s.voice_attempt_cap || is_near_cap s.discount_pct s.policy_cap_pct)

-- `raised_by` of `_raiser_details`
unfoldable pub raised_by : Stakes → List Raiser
raised_by s =
    let proximity = if is_proximate s then Raiser.guardrail_proximity ∷ [] else [] in
    if leb s.threshold_minor s.amount_minor then Raiser.stakes ∷ proximity else proximity

-- the floor of `explain_route`
unfoldable pub floor_of : Task → Bool → Tier
floor_of Task.draft true = Tier.mini
floor_of task live = task_floor task

-- the loop over `raised_by`
unfoldable pub raise_for : List Raiser → Tier → Tier
raise_for [] tier = tier
raise_for (r ∷ rest) tier = raise_for rest (raise_tier tier)

-- the tier of `explain_route`
unfoldable pub explain_route : Task → Stakes → Tier
explain_route task s = raise_for (raised_by s) (floor_of task s.live)

-- A request that the router makes: the attempt, the provider and the tier.
pub record Request : Type 0 where
  pub attempt : ℕ
  pub provider : Provider
  pub tier : Tier

-- the loop over the providers: the requests made, and the answer with its request
unfoldable pub ask_each :
    (Request → Option Text) → ℕ → Tier → List Provider → List Request × Option (Request × Text)
ask_each answers attempt tier [] = ([], none)
ask_each answers attempt tier (p ∷ rest) =
    let request : Request = record { attempt = attempt; provider = p; tier = tier } in
    let (made, later) = ask_each answers attempt tier rest in
    elim (answers request) [
      | none ↦ (request ∷ made, later)
      | some text ↦ (request ∷ [], some (request, text))
    ]

-- the second attempt, at the next tier; its answer is taken as it is
unfoldable pub ask_again :
    (Request → Option Text)
    → List Provider
    → Tier
    → List Request
    → List Request × Option (Request × Text)
ask_again answers order tier made =
    let (more, answer) = ask_each answers 1 (raise_tier tier) order in (made ++ more, answer)

abbrev pub judge :
    (Request → Option Text)
    → (Text → Bool)
    → List Provider
    → Tier
    → List Request × Option (Request × Text)
    → List Request × Option (Request × Text)
judge answers validator order tier (made, none) = (made, none)
judge answers validator order tier (made, some (request, text)) =
    if validator text then (made, some (request, text)) else ask_again answers order tier made

-- `ModelRouter.call`: the requests made, and the answer; no answer is `ProviderUnavailable`
unfoldable pub call :
    (Request → Option Text)
    → (Text → Bool)
    → Option Provider
    → Task
    → Stakes
    → List Request × Option (Request × Text)
call answers validator setting task s =
    let order = provider_order setting in
    let tier = explain_route task s in
    judge answers validator order tier (ask_each answers 0 tier order)
