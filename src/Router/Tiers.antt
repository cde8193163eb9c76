-- ===== src/Router/Tiers.antt =====
-- The tier of a call, and what a call asks of the providers.
use recova.Prelude.{
  ℕ, ◌+◌, min, ◌≡◌, ◌⊎◌, ◌≤◌, refl, Bool, true, Option, none, some, List, [], ◌∷◌, arith, length,
  length-append, is_some, Bool-cases, inl, inr,
}
use recova.Prelude.Text.{Text}
use recova.Router.{
  Task, Tier, Provider, tier_index, raise_tier, provider_order, Stakes, Raiser, raised_by, floor_of,
  raise_for, explain_route, Request, ask_each, ask_again, judge, call,
}

raise_tier-tier_index : (t : Tier) → tier_index (raise_tier t) ≡ min (tier_index t + 1) 2
unfolding raise_tier
raise_tier-tier_index Tier.nano = refl
raise_tier-tier_index Tier.mini = refl
raise_tier-tier_index Tier.full = refl

tier_index-top : (t : Tier) → tier_index t ≤ 2
tier_index-top t = ground arith

raise_for-tier_index :
    (rs : List Raiser) (t : Tier) → tier_index (raise_for rs t) ≡ min (tier_index t + length rs) 2
unfolding raise_for
raise_for-tier_index [] t = omega (arith, tier_index-top t)
raise_for-tier_index (r ∷ rest) t =
    omega
      (arith, raise_for-tier_index rest (raise_tier t), raise_tier-tier_index t, tier_index-top t)

-- The tier of a route lies as many steps above the floor of the task as there are raisers, at the
-- full tier at most.
pub explain_route-tier_index :
    (task : Task) (s : Stakes)
    → tier_index (explain_route task s)
      ≡ min (tier_index (floor_of task s.live) + length (raised_by s)) 2
unfolding explain_route
explain_route-tier_index task s = raise_for-tier_index (raised_by s) (floor_of task s.live)

module _ (answers : Request → Option Text) where
  ask_each-length :
      (attempt : ℕ) (tier : Tier) (order : List Provider)
      → length (ask_each answers attempt tier order).0 ≤ length order
  unfolding ask_each
  ask_each-length attempt tier [] = omega arith
  ask_each-length attempt tier (p ∷ rest) = ground (arith, ask_each-length attempt tier rest)

  ask_each-asked :
      (attempt : ℕ) (tier : Tier) (order : List Provider) (r : Request) (text : Text)
      → (ask_each answers attempt tier order).1 ≡ some (r, text)
      → (answers r ≡ some text) × (r.tier ≡ tier)
  unfolding ask_each
  ask_each-asked attempt tier [] r text h = ground arith
  ask_each-asked attempt tier (p ∷ rest) r text h =
      ground (arith, ask_each-asked attempt tier rest r text)

  -- One of the two providers answers at that attempt and tier.
  abbrev pub Served : ℕ → Tier → Type 0
  Served attempt tier =
      ((is_some (answers (record { attempt = attempt; provider = Provider.openai; tier = tier }))
        ≡ true))
      ⊎ (is_some (answers (record { attempt = attempt; provider = Provider.gemini; tier = tier }))
          ≡ true)

  ask_each-Served :
      (attempt : ℕ) (tier : Tier) (setting : Option Provider)
      → Served attempt tier
      → is_some (ask_each answers attempt tier (provider_order setting)).1 ≡ true
  unfolding ask_each provider_order
  ask_each-Served attempt tier none h = ground arith
  ask_each-Served attempt tier (some Provider.openai) h = ground arith
  ask_each-Served attempt tier (some Provider.gemini) h = ground arith

  module _ (validator : Text → Bool) (setting : Option Provider) where
    order-length : length (provider_order setting) ≡ 2
    unfolding provider_order
    order-length = ground arith

    asked : ℕ → Tier → List Request × Option (Request × Text)
    asked attempt tier = ask_each answers attempt tier (provider_order setting)

    ask_again-length :
        (tier : Tier) (made : List Request)
        → length made ≤ 2
        → length (ask_again answers (provider_order setting) tier made).0 ≤ 4
    unfolding ask_again
    ask_again-length tier made few = omega (
      arith,
      few,
      order-length,
      length-append made (ask_each answers 1 (raise_tier tier) (provider_order setting)).0,
      ask_each-length 1 (raise_tier tier) (provider_order setting),
    )

    judge-length :
        (tier : Tier) (r : List Request × Option (Request × Text))
        → length r.0 ≤ 2
        → length (judge answers validator (provider_order setting) tier r).0 ≤ 4
    judge-length tier (made, none) few = omega (arith, few)
    judge-length tier (made, some (request, text)) few = elim (Bool-cases (validator text)) [
      | inl good ↦ rw good (omega (arith, few))
      | inr bad ↦ rw bad (ask_again-length tier made few)
    ]

    judge-Served :
        (tier : Tier) (r : List Request × Option (Request × Text))
        → is_some r.1 ≡ true
        → Served 1 (raise_tier tier)
        → is_some (judge answers validator (provider_order setting) tier r).1 ≡ true
    unfolding ask_again
    judge-Served tier (made, none) h served = h
    judge-Served tier (made, some (request, text)) h served = elim (Bool-cases (validator text)) [
      | inl good ↦ rw good refl
      | inr bad ↦ rw bad (ask_each-Served 1 (raise_tier tier) setting served)
    ]

-- A call makes four requests at most, whatever the providers answer and whatever answer is accepted.
pub call-bounded :
    (answers : Request → Option Text) (validator : Text → Bool) (setting : Option Provider)
    (task : Task) (s : Stakes)
    → length (call answers validator setting task s).0 ≤ 4
unfolding call
call-bounded answers validator setting task s =
    judge-length answers validator setting (explain_route task s)
      (ask_each answers 0 (explain_route task s) (provider_order setting))
      (omega (
        arith,
        order-length answers validator setting,
        ask_each-length answers 0 (explain_route task s) (provider_order setting),
      ))

-- If one of the providers answers the first attempt, and one of them the second attempt at the next
-- tier, then the call returns an answer, also if none of the answers is accepted.
pub call-answers :
    (answers : Request → Option Text) (validator : Text → Bool) (setting : Option Provider)
    (task : Task) (s : Stakes)
    → Served answers 0 (explain_route task s)
    → Served answers 1 (raise_tier (explain_route task s))
    → is_some (call answers validator setting task s).1 ≡ true
unfolding call
call-answers answers validator setting task s first second =
    judge-Served answers validator setting _ _
      (ask_each-Served answers 0 (explain_route task s) setting first) second
