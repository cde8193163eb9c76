-- ===== src/Policy/Gate.antt =====
-- What the sandbox admits, exactly.
use native.Mathlib.Nat.{mul-le-mul_left}
use recova.Prelude.{
  ℕ, zero, suc, ◌+◌, ◌*◌, ◌≤◌, ◌<◌, ◌≡◌, ◌↔◌, refl, true, false, Option, none, some, arith, inl,
  inr, subst, Bool-cases, Among, ltb, ltb→lt, sym,
}
use recova.Prelude.Int.{Number}
use recova.Policy.{
  ProposedAction, ChannelName, Sandbox, proposed_channel_value, counts_as_partial, partial_base,
  partial_pct, below_minimum, over_discount, over_ceiling, channel_refused, action_listed,
  moves_money, validate,
}
use recova.Policy.Rounding.{round_half_even_bound, round_half_even-reaches}
use recova.Policy.Permitted.{
  money_names, IsLess, share_base, IsWithin, IsPermitted, contains-Among, Among-contains,
  partial_base-share, counts-IsPartial, IsPartial-counts, exceeds-IsWithin, IsWithin-exceeds,
}

scaled_floor : (b m r n : ℕ) → m * 100 ≤ r → 2 * (b * r) ≤ 2 * n + b → 200 * (m * b) ≤ 2 * n + b
scaled_floor b m r n h k = grind (arith, mul-le-mul_left b h)

share_base-pos : (o : Option ℕ) (total : ℕ) → 0 < total → 0 < share_base o total
share_base-pos none total h = h
share_base-pos (some zero) total h = h
share_base-pos (some (suc c)) total h = omega arith

share_base-empty : (o : Option ℕ) (total : ℕ) → ltb 0 total ≡ false → share_base o total ≡ 0
share_base-empty none total h = ground arith
share_base-empty (some zero) total h = ground arith
share_base-empty (some (suc c)) total h = ground arith

scaled_half :
    (b m amount : ℕ)
    → 200 * (m * b) ≤ 20000 * amount + b
    → 2 * (b * (m * 100)) ≤ 2 * (amount * 10000) + b
scaled_half b m amount h = omega arith

-- The percentage test is the exact bound of the minimum share.
module _ (p : Sandbox) (amount total : ℕ) where
  abbrev base : ℕ
  base = share_base p.max_amount_minor total

  below_minimum-floor :
      below_minimum p (some amount) (some total) ≡ false
      → 200 * (p.min_partial_payment_pct * base) ≤ 20000 * amount + base
  unfolding below_minimum
  below_minimum-floor h = elim (Bool-cases (ltb 0 total)) [
    | inl positive ↦ rw (sym (partial_base-share p.max_amount_minor total)) (
        omega (
          arith,
          scaled_floor (partial_base p.max_amount_minor total) p.min_partial_payment_pct
              (partial_pct p.max_amount_minor amount total) (amount * 10000) (ground arith)
              (round_half_even_bound (amount * 10000) (partial_base p.max_amount_minor total)),
        ))
    | inr empty ↦ rw (share_base-empty p.max_amount_minor total empty) (omega arith)
  ]

  floor-below_minimum :
      200 * (p.min_partial_payment_pct * base) ≤ 20000 * amount + base
      → below_minimum p (some amount) (some total) ≡ false
  unfolding below_minimum
  floor-below_minimum h = elim (Bool-cases (ltb 0 total)) [
    | inl positive ↦
        let reached =
          round_half_even-reaches (amount * 10000) base (p.min_partial_payment_pct * 100)
            (share_base-pos p.max_amount_minor total (ltb→lt 0 total positive)) (omega arith)
            (scaled_half base p.min_partial_payment_pct amount h) in
        rw (partial_base-share p.max_amount_minor total) (ground (arith, reached))
    | inr empty ↦ ground arith
  ]

channel-passes :
    (p : Sandbox) (o : Option ChannelName)
    → ((c : ChannelName) → o ≡ some c → Among (proposed_channel_value c) p.allowed_channels)
    → channel_refused p o ≡ false
unfolding channel_refused
channel-passes p none h = refl
channel-passes p (some c) h = ground (arith, Among-contains _ _ (h c refl))

share-passes :
    (p : Sandbox) (o t : Option ℕ)
    → ((amount total : ℕ)
        → o ≡ some amount
        → t ≡ some total
        → 200 * (p.min_partial_payment_pct * share_base p.max_amount_minor total)
          ≤ 20000 * amount + share_base p.max_amount_minor total)
    → below_minimum p o t ≡ false
unfolding below_minimum
share-passes p none t h = refl
share-passes p (some amount) none h = refl
share-passes p (some amount) (some total) h =
    floor-below_minimum p amount total (h amount total refl refl)

discount-passes :
    (p : Sandbox) (o : Option Number)
    → ((d : Number) → o ≡ some d → IsWithin (p.max_discount_pct * 100) d)
    → over_discount p o ≡ false
unfolding over_discount
discount-passes p none h = refl
discount-passes p (some d) h = IsWithin-exceeds _ d (h d refl)

ceiling-passes :
    (c o : Option ℕ)
    → ((amount ceiling : ℕ) → o ≡ some amount → c ≡ some ceiling → amount ≤ ceiling)
    → over_ceiling c o ≡ false
unfolding over_ceiling
ceiling-passes none o h = refl
ceiling-passes (some c) none h = refl
ceiling-passes (some c) (some n) h = ground (arith, h n c refl refl)

-- The tests of `validate`, on an approved proposal.
pub record IsCleared (p : Sandbox) (a : ProposedAction) : Type 0 where
  pub action : action_listed p a ≡ true
  pub channel : channel_refused p a.channel ≡ false
  pub whole : counts_as_partial a ≡ true → p.allow_partial_payment ≡ true
  pub share :
      counts_as_partial a ≡ true → below_minimum p a.amount_minor a.total_amount_minor ≡ false
  pub discount : over_discount p a.discount_pct ≡ false
  pub ceiling : moves_money a ≡ true → over_ceiling p.max_amount_minor a.amount_minor ≡ false

pub validate-IsCleared :
    (p : Sandbox) (a : ProposedAction) → ((validate p a).approved ≡ true) ↔ IsCleared p a
unfolding validate
validate-IsCleared p a = (λ h. ground arith, λ h. ground arith)

IsCleared-IsPermitted : (p : Sandbox) (a : ProposedAction) → IsCleared p a → IsPermitted p a
unfolding action_listed channel_refused over_discount over_ceiling moves_money
IsCleared-IsPermitted p a c = record {
  action_listed = contains-Among _ _ c.action;
  channel_listed = λ name e.
      contains-Among _ _
        (let h = subst (λ o. channel_refused p o ≡ false) e c.channel in ground arith);
  partial_allowed = λ h. c.whole (IsPartial-counts a h);
  partial_enough = λ amount total h ea et. below_minimum-floor p amount total (
      subst (λ o. below_minimum p (some amount) o ≡ false) et
        (subst (λ o. below_minimum p o a.total_amount_minor ≡ false) ea
          (c.share (IsPartial-counts a h))));
  discount_within =
      λ d e. exceeds-IsWithin _ d (subst (λ o. over_discount p o ≡ false) e c.discount);
  amount_within = λ amount ceiling h ea ec.
      let within =
        subst (λ o. over_ceiling o (some amount) ≡ false) ec
          (subst (λ o. over_ceiling p.max_amount_minor o ≡ false) ea
            (c.ceiling (Among-contains _ money_names h))) in
      ground arith;
}

IsPermitted-IsCleared : (p : Sandbox) (a : ProposedAction) → IsPermitted p a → IsCleared p a
unfolding action_listed channel_refused over_discount over_ceiling moves_money
IsPermitted-IsCleared p a h = record {
  action = Among-contains _ _ h.action_listed;
  channel = channel-passes p a.channel h.channel_listed;
  whole = λ c. h.partial_allowed (counts-IsPartial a c);
  share = λ c.
      share-passes p a.amount_minor a.total_amount_minor
        λ amount total. h.partial_enough amount total (counts-IsPartial a c);
  discount = discount-passes p a.discount_pct h.discount_within;
  ceiling = λ m.
      ceiling-passes p.max_amount_minor a.amount_minor
        λ amount ceiling. h.amount_within amount ceiling (contains-Among _ money_names m);
}

pub validate-approved_iff :
    (p : Sandbox) (a : ProposedAction) → ((validate p a).approved ≡ true) ↔ IsPermitted p a
validate-approved_iff p a = (
  λ h. IsCleared-IsPermitted p a ((validate-IsCleared p a).0 h),
  λ h. (validate-IsCleared p a).1 (IsPermitted-IsCleared p a h),
)

-- An approved proposal for less than the total is at least the policy's minimum share of the base
-- (the total, or the ceiling if that is lower and not 0), up to half a hundredth of a percent.
pub validate-partial_floor :
    (p : Sandbox) (a : ProposedAction) (amount total : ℕ)
    → a.amount_minor ≡ some amount
    → a.total_amount_minor ≡ some total
    → amount < total
    → (validate p a).approved ≡ true
    → 200 * (p.min_partial_payment_pct * partial_base p.max_amount_minor total)
      ≤ 20000 * amount + partial_base p.max_amount_minor total
validate-partial_floor p a amount total ea et less approved =
    let permitted = (validate-approved_iff p a).0 approved in
    let below : IsLess a.amount_minor a.total_amount_minor = rw (ea, et) less in
    rw (partial_base-share p.max_amount_minor total)
      (permitted.partial_enough amount total (inr (inr below)) ea et)
