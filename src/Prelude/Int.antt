-- ===== src/Prelude/Int.antt =====
-- Python's signed integers over the native numbers, as far as the operator's patches use them.
use Prim.Native.Nat.{ℕ, suc, ◌+◌, ◌≤◌}
use mathlib.Core.Bool.{Bool, true, false}
use recova.Prelude.Tests.{ltb, leb}

-- `negsuc n` is -(n + 1).
pub data ℤ : Type 0 where
  pos : ℕ → ℤ
  negsuc : ℕ → ℤ

abbrev pub pos_part : ℤ → ℕ
pos_part (pos n) = n
pos_part (negsuc _) = 0

abbrev pub neg_part : ℤ → ℕ
neg_part (pos _) = 0
neg_part (negsuc n) = suc n

infix 50 ◌≤ℤ◌
abbrev pub ◌≤ℤ◌ : ℤ → ℤ → Type 0
a ≤ℤ b = pos_part a + neg_part b ≤ pos_part b + neg_part a

abbrev pub ltb_ℤ : ℤ → ℤ → Bool
ltb_ℤ a b = ltb (pos_part a + neg_part b) (pos_part b + neg_part a)

abbrev pub leb_ℤ : ℤ → ℤ → Bool
leb_ℤ a b = leb (pos_part a + neg_part b) (pos_part b + neg_part a)

-- A number of a JSON answer, as `json.loads` reads it: also the floats that are not finite.
pub data Number : Type 0 where
  finite : ℤ → Number
  infinity minus_infinity nan : Number

-- `number > n`
abbrev pub exceeds : Number → ℕ → Bool
exceeds (finite z) n = ltb_ℤ (pos n) z
exceeds infinity n = true
exceeds minus_infinity n = false
exceeds nan n = false
