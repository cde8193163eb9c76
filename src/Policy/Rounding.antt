-- ===== src/Policy/Rounding.antt =====
-- The rounding of a share to two places, half to even, against the exact fraction.
use recova.Prelude.{
  ℕ, ◌+◌, ◌*◌, ◌/◌, ◌%◌, ◌⊎◌, ◌≤◌, ◌<◌, ◌≡◌, arith, inl, inr, leb, leb→le, Bool-cases,
}
use native.Mathlib.Nat.{div-add-mod, mul-le-mul_left, mod-lt}
use recova.Policy.{round_half_even}

-- Rounding keeps the quotient, or takes one more when the rest is at least half the divisor.
round_half_even_cases :
    (n d : ℕ)
    → (round_half_even n d ≡ n / d) ⊎ ((round_half_even n d ≡ n / d + 1) × (d ≤ 2 * (n % d)))
unfolding round_half_even
round_half_even_cases n d = ground arith

pub round_half_even_bound : (n d : ℕ) → 2 * (d * round_half_even n d) ≤ 2 * n + d
round_half_even_bound n d = elim (round_half_even_cases n d) [
  | inl down ↦ rw down (omega (arith, div-add-mod n d))
  | inr (up, half) ↦ rw up (omega (arith, div-add-mod n d))
]

scaled_floor : (b m r n : ℕ) → m * 100 ≤ r → 2 * (b * r) ≤ 2 * n + b → 200 * (m * b) ≤ 2 * n + b
scaled_floor b m r n h k = grind (arith, mul-le-mul_left b h)

at_most_or_past : (a b : ℕ) → (a ≤ b) ⊎ (b + 1 ≤ a)
at_most_or_past a b = elim (Bool-cases (leb a b)) [
  | inl low ↦ inl (leb→le a b low)
  | inr high ↦ inr (ground arith)
]

-- The bound is at most the quotient, or the rest is at least half the divisor.
over_half : (d q r k : ℕ) → 2 * (d * k) ≤ 2 * (d * q + r) + d → (k ≤ q) ⊎ (d ≤ 2 * r)
over_half d q r k h = elim (at_most_or_past k q) [
  | inl low ↦ inl low
  | inr high ↦ inr (omega (arith, mul-le-mul_left {m = q + 1} {n = k} d high))
]

-- It is never more than one above the quotient.
not_past : (d q r k : ℕ) → r < d → 2 * (d * k) ≤ 2 * (d * q + r) + d → k ≤ q + 1
not_past d q r k rest h = elim (at_most_or_past k (q + 1)) [
  | inl low ↦ low
  | inr high ↦ omega (arith, mul-le-mul_left {m = q + 2} {n = k} d (omega arith))
]

-- An even bound that the exact fraction comes within a half of is reached.
pub round_half_even-reaches :
    (n d k : ℕ) → 0 < d → k % 2 ≡ 0 → 2 * (d * k) ≤ 2 * n + d → k ≤ round_half_even n d
unfolding round_half_even
round_half_even-reaches n d k positive even h =
    let whole = div-add-mod n d in
    ground (
      arith,
      over_half d (n / d) (n % d) k (omega arith),
      not_past d (n / d) (n % d) k (mod-lt n positive) (omega arith),
    )
