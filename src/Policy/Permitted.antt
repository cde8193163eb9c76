-- ===== src/Policy/Permitted.antt =====
-- What the merchant's policy permits, on the fields of a proposal and of the policy; and the tests of
-- policy_guard.py against it.
use text.Mathlib.TextEquality.{eq_iff}
use recova.Prelude.{
  ℕ, zero, suc, min, String, ◌+◌, ◌*◌, ◌⊎◌, ◌≤◌, ◌<◌, ◌≡◌, refl, Bool, true, false, Option, none,
  some, List, [], ◌∷◌, arith, inl, inr, Bool-cases, Among, ltb→lt, lt→ltb,
}
use recova.Prelude.Int.{Number, finite, infinity, minus_infinity, nan, pos, negsuc, exceeds}
use recova.Constants.{contains, same_string}
use recova.Policy.{
  ProposedAction, ChannelName, Sandbox, proposed_action_value, proposed_channel_value, asks_less,
  is_true, counts_as_partial, partial_base,
}

-- The actions that move money.
abbrev pub money_names : List String
money_names =
    "GENERATE_PAYMENT_LINK" ∷ "GENERATE_QR_CODE" ∷ "OFFER_PARTIAL_PLAN" ∷ "RETRY_CHARGE"
    ∷ "OFFER_FEE_WAIVER" ∷ []

-- The amount is less than the total.
abbrev pub IsLess : Option ℕ → Option ℕ → Type 0
IsLess (some amount) (some total) = amount < total
IsLess (some amount) none = ⊥
IsLess none _ = ⊥

-- A proposal for a part of the bill: it says so, or it is a partial plan, or it names less than the
-- total.
abbrev pub IsPartial : ProposedAction → Type 0
IsPartial a =
    (a.is_partial ≡ some true)
    ⊎ (proposed_action_value a.action ≡ "OFFER_PARTIAL_PLAN")
    ⊎ IsLess a.amount_minor a.total_amount_minor

-- What the minimum share is taken of: the total, or the ceiling if that is lower and not 0.
abbrev pub share_base : Option ℕ → ℕ → ℕ
share_base none total = total
share_base (some zero) total = total
share_base (some (suc c)) total = min total (suc c)

-- The discount, in hundredths of a percent, is at most the bound; a NaN is not above anything.
abbrev pub IsWithin : ℕ → Number → Type 0
IsWithin bound (finite (pos n)) = n ≤ bound
IsWithin bound (finite (negsuc _)) = Unit
IsWithin bound infinity = ⊥
IsWithin bound minus_infinity = Unit
IsWithin bound nan = Unit

-- The conditions of the merchant's policy, each on its own, on the fields of the proposal.
pub record IsPermitted (p : Sandbox) (a : ProposedAction) : Type 0 where
  pub action_listed : Among (proposed_action_value a.action) p.allowed_actions
  pub channel_listed :
      (c : ChannelName) → a.channel ≡ some c → Among (proposed_channel_value c) p.allowed_channels
  pub partial_allowed : IsPartial a → p.allow_partial_payment ≡ true
  pub partial_enough :
      (amount total : ℕ)
      → IsPartial a
      → a.amount_minor ≡ some amount
      → a.total_amount_minor ≡ some total
      → 200 * (p.min_partial_payment_pct * share_base p.max_amount_minor total)
        ≤ 20000 * amount + share_base p.max_amount_minor total
  pub discount_within :
      (d : Number) → a.discount_pct ≡ some d → IsWithin (p.max_discount_pct * 100) d
  pub amount_within :
      (amount ceiling : ℕ)
      → Among (proposed_action_value a.action) money_names
      → a.amount_minor ≡ some amount
      → p.max_amount_minor ≡ some ceiling
      → amount ≤ ceiling

pub contains-Among : (x : String) (xs : List String) → contains x xs ≡ true → Among x xs
contains-Among x [] h = ground arith
contains-Among x (y ∷ ys) h = elim (Bool-cases (same_string x y)) [
  | inl same ↦ inl ((eq_iff x y).0 same)
  | inr other ↦ inr (contains-Among x ys (ground arith))
]

pub Among-contains : (x : String) (xs : List String) → Among x xs → contains x xs ≡ true
Among-contains x [] h = elim h [ ]
Among-contains x (y ∷ ys) (inl same) = ground (arith, (eq_iff x y).1 same)
Among-contains x (y ∷ ys) (inr later) = ground (arith, Among-contains x ys later)

asks_less-IsLess : (o t : Option ℕ) → asks_less o t ≡ true → IsLess o t
asks_less-IsLess (some a) (some t) h = ltb→lt a t h
asks_less-IsLess (some a) none h = ground arith
asks_less-IsLess none t h = ground arith

IsLess-asks_less : (o t : Option ℕ) → IsLess o t → asks_less o t ≡ true
IsLess-asks_less (some a) (some t) h = lt→ltb a t h
IsLess-asks_less (some a) none h = elim h [ ]
IsLess-asks_less none t h = elim h [ ]

is_true-some : (o : Option Bool) → is_true o ≡ true → o ≡ some true
is_true-some o h = ground arith

pub partial_base-share : (o : Option ℕ) (total : ℕ) → partial_base o total ≡ share_base o total
partial_base-share none total = refl
partial_base-share (some zero) total = refl
partial_base-share (some (suc c)) total = ground arith

pub counts-IsPartial : (a : ProposedAction) → counts_as_partial a ≡ true → IsPartial a
unfolding counts_as_partial
counts-IsPartial a h = elim (Bool-cases (is_true a.is_partial)) [
  | inl says ↦ inl (is_true-some a.is_partial says)
  | inr silent ↦
      elim (Bool-cases (same_string (proposed_action_value a.action) "OFFER_PARTIAL_PLAN")) [
        | inl plan ↦ inr (inl ((eq_iff _ _).0 plan))
        | inr other ↦
            inr (inr (asks_less-IsLess a.amount_minor a.total_amount_minor (ground arith)))
      ]
]

pub IsPartial-counts : (a : ProposedAction) → IsPartial a → counts_as_partial a ≡ true
unfolding counts_as_partial
IsPartial-counts a (inl says) = rw says refl
IsPartial-counts a (inr (inl plan)) =
    ground (arith, (eq_iff (proposed_action_value a.action) "OFFER_PARTIAL_PLAN").1 plan)
IsPartial-counts a (inr (inr less)) =
    ground (arith, IsLess-asks_less a.amount_minor a.total_amount_minor less)

pub exceeds-IsWithin : (n : ℕ) (d : Number) → exceeds d n ≡ false → IsWithin n d
exceeds-IsWithin n (finite (pos k)) h = ground arith
exceeds-IsWithin n (finite (negsuc k)) h = tt
exceeds-IsWithin n infinity h = ground arith
exceeds-IsWithin n minus_infinity h = tt
exceeds-IsWithin n nan h = tt

pub IsWithin-exceeds : (n : ℕ) (d : Number) → IsWithin n d → exceeds d n ≡ false
IsWithin-exceeds n (finite (pos k)) h = ground arith
IsWithin-exceeds n (finite (negsuc k)) h = ground arith
IsWithin-exceeds n infinity h = elim h [ ]
IsWithin-exceeds n minus_infinity h = refl
IsWithin-exceeds n nan h = refl
