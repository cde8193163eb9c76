-- ===== src/Draft/Fit.antt =====
-- What a draft that passes the guard is known to be.
use recova.Prelude.{
  ℕ, ◌+◌, ◌*◌, ◌≤◌, ◌<◌, ◌≡◌, ◌↔◌, refl, arith, Bool, true, false, Option, none, some, List, [],
  ◌∷◌, ◌++◌, any, ltb, leb, leb→le, inl, inr, All, Bool-cases,
}
use recova.Policy.{Sandbox}
use recova.Draft.{
  Reason, Judgments, flag, is_empty, below_floor, mentions_more, upfront_of, overpromises,
  refused_partial, small_partial, judged, check_draft, concession_gate,
}

-- What Jev and the figures have to say of a draft.
pub record IsFitting (p : Sandbox) (bill : ℕ) (amounts percents : List ℕ) (j : Judgments)
    : Type 0 where
  pub kind : j.coercive < 5000
  pub relevant : j.off_topic < 5000
  pub outward : j.leaks_internal < 5000
  pub discounted :
      concession_gate ≤ j.promises_discount
      → (0 < p.max_discount_pct) × All (λ d. d ≤ p.max_discount_pct * 100) percents
  pub parted : concession_gate ≤ j.agrees_to_partial → p.allow_partial_payment ≡ true
  pub enough :
      (a : ℕ)
      → concession_gate ≤ j.agrees_to_partial
      → upfront_of amounts j.upfront_amount ≡ some a
      → bill * p.min_partial_payment_pct ≤ 100 * a + 5000

abbrev pub IsFit : Sandbox → ℕ → List ℕ → List ℕ → Option Judgments → Type 0
IsFit p bill amounts percents none = All (λ a. a ≤ bill + 50) amounts
IsFit p bill amounts percents (some j) =
    All (λ a. a ≤ bill + 50) amounts × IsFitting p bill amounts percents j

any-All : (n : ℕ) (xs : List ℕ) → any (λ a. ltb n a) xs ≡ false → All (λ a. a ≤ n) xs
any-All n [] h = tt
any-All n (x ∷ xs) h = (ground arith, any-All n xs (ground arith))

All-any : (n : ℕ) (xs : List ℕ) → All (λ a. a ≤ n) xs → any (λ a. ltb n a) xs ≡ false
All-any n [] h = refl
All-any n (x ∷ xs) (le, h) = ground (arith, All-any n xs h)

module _ (test : Bool) (reason : Reason) (rest : List Reason) where
  flag-off : is_empty (flag test reason ++ rest) ≡ true → test ≡ false
  flag-off h = ground arith

  flag-rest : is_empty (flag test reason ++ rest) ≡ true → is_empty rest ≡ true
  flag-rest h = ground arith

  off-flag : test ≡ false → is_empty rest ≡ true → is_empty (flag test reason ++ rest) ≡ true
  off-flag e h = ground arith

enough-floor :
    (bill pct : ℕ) (o : Option ℕ)
    → ((a : ℕ) → o ≡ some a → bill * pct ≤ 100 * a + 5000)
    → below_floor bill pct o ≡ false
enough-floor bill pct none h = refl
enough-floor bill pct (some a) h = ground (arith, h a refl)

flag-none : (test : Bool) (reason : Reason) → is_empty (flag test reason) ≡ true → test ≡ false
flag-none test reason h = ground arith

module _ (p : Sandbox) (bill : ℕ) (amounts percents : List ℕ) (j : Judgments) where
  small_partial-floor :
      (a : ℕ)
      → small_partial p bill amounts j ≡ false
      → p.allow_partial_payment ≡ true
      → concession_gate ≤ j.agrees_to_partial
      → upfront_of amounts j.upfront_amount ≡ some a
      → bill * p.min_partial_payment_pct ≤ 100 * a + 5000
  unfolding small_partial
  small_partial-floor a h allowed gate picked = ground arith

  overpromises-cap :
      overpromises p percents j ≡ false
      → concession_gate ≤ j.promises_discount
      → (0 < p.max_discount_pct) × All (λ d. d ≤ p.max_discount_pct * 100) percents
  unfolding overpromises
  overpromises-cap h gate = (ground arith, any-All _ percents (ground arith))

  refused_partial-allowed :
      refused_partial p j ≡ false
      → concession_gate ≤ j.agrees_to_partial
      → p.allow_partial_payment ≡ true
  unfolding refused_partial
  refused_partial-allowed h gate = ground arith

  floor-small_partial : IsFitting p bill amounts percents j → small_partial p bill amounts j ≡ false
  unfolding small_partial
  floor-small_partial fit = elim (Bool-cases (leb concession_gate j.agrees_to_partial)) [
    | inl gate ↦ ground (
      arith,
      enough-floor bill p.min_partial_payment_pct (upfront_of amounts j.upfront_amount)
          λ a. fit.enough a (leb→le _ _ gate),
    )
    | inr off ↦ ground arith
  ]

  cap-overpromises : IsFitting p bill amounts percents j → overpromises p percents j ≡ false
  unfolding overpromises
  cap-overpromises fit = elim (Bool-cases (leb concession_gate j.promises_discount)) [
    | inl gate ↦ ground (
      arith,
      (fit.discounted (leb→le _ _ gate)).0,
      All-any _ percents (fit.discounted (leb→le _ _ gate)).1,
    )
    | inr off ↦ ground arith
  ]

  allowed-refused_partial : IsFitting p bill amounts percents j → refused_partial p j ≡ false
  unfolding refused_partial
  allowed-refused_partial fit = ground (arith, fit.parted)

  IsFitting-of :
      is_empty (judged p bill amounts percents (some j)) ≡ true
      → IsFitting p bill amounts percents j
  unfolding judged
  IsFitting-of h = record {
    kind = ground arith;
    relevant = ground arith;
    outward = ground arith;
    discounted = overpromises-cap (ground arith);
    parted = refused_partial-allowed (ground arith);
    enough = λ a gate.
        small_partial-floor a (ground arith) (refused_partial-allowed (ground arith) gate) gate;
  }

  IsFitting-quiet :
      IsFitting p bill amounts percents j
      → is_empty (judged p bill amounts percents (some j)) ≡ true
  unfolding judged
  IsFitting-quiet fit = ground (
    arith,
    fit.kind,
    fit.relevant,
    fit.outward,
    cap-overpromises fit,
    allowed-refused_partial fit,
    floor-small_partial fit,
  )

module _ (bill : ℕ) (amounts : List ℕ) (rest : List Reason) where
  passes_iff :
      (is_empty (flag (mentions_more bill amounts) Reason.above_bill ++ rest) ≡ true)
      ↔ (All (λ a. a ≤ bill + 50) amounts × (is_empty rest ≡ true))
  unfolding mentions_more
  passes_iff = (
    λ h. (any-All _ amounts (flag-off _ Reason.above_bill rest h), flag-rest _ _ rest h),
    λ fit. off-flag _ _ rest (All-any _ amounts fit.0) fit.1,
  )

-- A draft passes the guard exactly if none of its amounts is above the bill by more than half a rupee
-- and, if Jev answers, it lies below the gates of coercive, off-topic and internal text, a discount
-- that it likely promises is within a cap that is not zero, and a partial payment that it likely
-- agrees to is allowed and, where an amount to pay now is picked, at most half a rupee below the
-- minimum share of the bill.
pub check_draft-ok_iff :
    (p : Sandbox) (bill : ℕ) (amounts percents : List ℕ) (judgments : Option Judgments)
    → ((check_draft p bill amounts percents judgments).ok ≡ true)
      ↔ IsFit p bill amounts percents judgments
unfolding check_draft judged
check_draft-ok_iff p bill amounts percents none =
    (λ h. ((passes_iff bill amounts []).0 h).0, λ fit. (passes_iff bill amounts []).1 (fit, refl))
check_draft-ok_iff p bill amounts percents (some j) = (
  λ h. (
    ((passes_iff bill amounts _).0 h).0,
    IsFitting-of p bill amounts percents j ((passes_iff bill amounts _).0 h).1,
  ),
  λ fit. (passes_iff bill amounts _).1 (fit.0, IsFitting-quiet p bill amounts percents j fit.1),
)
