-- ===== src/Common/Int.antt =====
-- Signed integers over the native numbers, and the arithmetic of C on them: a product, and a
-- division that truncates towards zero.
use Prim.Native.Nat.{ℕ, suc, ◌+◌, ◌-◌, ◌*◌, ◌/◌, ◌%◌, ◌≤◌}
use mathlib.Core.Bool.{Bool}
use mathlib.Core.Path.{◌≡◌}
use native.Mathlib.Omega.{arith}
use switch_v.Common.Tests.{ltb, leb, if◌then◌else◌}

-- `negsuc n` is -(n + 1).
pub data ℤ : Type 0 where
  pos : ℕ → ℤ
  negsuc : ℕ → ℤ

abbrev pub pos_part : ℤ → ℕ
pos_part (pos n) = n
pos_part (negsuc n) = 0

abbrev pub neg_part : ℤ → ℕ
neg_part (pos n) = 0
neg_part (negsuc n) = suc n

-- a - b, as an integer.
abbrev pub sub_ℕ : ℕ → ℕ → ℤ
sub_ℕ a b = if leb b a then pos (a - b) else negsuc (b - a - 1)

infixl 65 ◌+ℤ◌
infixl 70 ◌*ℤ◌ ◌/ℤ◌ ◌%ℤ◌
infix 50 ◌≤ℤ◌
unfoldable pub ◌+ℤ◌ : ℤ → ℤ → ℤ
a +ℤ b = sub_ℕ (pos_part a + pos_part b) (neg_part a + neg_part b)

unfoldable pub ◌*ℤ◌ : ℤ → ℤ → ℤ
a *ℤ b =
    sub_ℕ (pos_part a * pos_part b + neg_part a * neg_part b)
      (pos_part a * neg_part b + neg_part a * pos_part b)

-- The quotient of C, by sign and magnitude.
unfoldable pub ◌/ℤ◌ : ℤ → ℤ → ℤ
pos a /ℤ pos b = pos (a / b)
pos a /ℤ negsuc b = sub_ℕ 0 (a / suc b)
negsuc a /ℤ pos b = sub_ℕ 0 (suc a / b)
negsuc a /ℤ negsuc b = pos (suc a / suc b)

-- The remainder of C has the sign of the dividend.
unfoldable pub ◌%ℤ◌ : ℤ → ℤ → ℤ
pos a %ℤ pos b = pos (a % b)
pos a %ℤ negsuc b = pos (a % suc b)
negsuc a %ℤ pos b = sub_ℕ 0 (suc a % b)
negsuc a %ℤ negsuc b = sub_ℕ 0 (suc a % suc b)

abbrev pub ◌≤ℤ◌ : ℤ → ℤ → Type 0
a ≤ℤ b = pos_part a + neg_part b ≤ pos_part b + neg_part a

abbrev pub ltb_ℤ : ℤ → ℤ → Bool
ltb_ℤ a b = ltb (pos_part a + neg_part b) (pos_part b + neg_part a)

pub sub_ℕ_parts : (p q : ℕ) → pos_part (sub_ℕ p q) + q ≡ neg_part (sub_ℕ p q) + p
sub_ℕ_parts p q = ground arith

-- The negative of a number.
pub pos_part-negative : (n : ℕ) → pos_part (sub_ℕ 0 n) ≡ 0
pos_part-negative n = ground arith

pub neg_part-negative : (n : ℕ) → neg_part (sub_ℕ 0 n) ≡ n
neg_part-negative n = ground arith

pub eq_of_parts : (a b : ℤ) → pos_part a + neg_part b ≡ pos_part b + neg_part a → a ≡ b
eq_of_parts a b h = ground arith

-- `y * z + r` is `x` if it is so for the parts.
pub mul_add_eq :
    (y z r x : ℤ)
    → pos_part y * pos_part z + neg_part y * neg_part z + pos_part r + neg_part x
      ≡ pos_part y * neg_part z + neg_part y * pos_part z + neg_part r + pos_part x
    → y *ℤ z +ℤ r ≡ x
unfolding ◌+ℤ◌ ◌*ℤ◌
mul_add_eq y z r x h =
    let p : ℕ = pos_part y * pos_part z + neg_part y * neg_part z in
    let n : ℕ = pos_part y * neg_part z + neg_part y * pos_part z in
    eq_of_parts _ x (
      omega (
        arith,
        sub_ℕ_parts p n,
        sub_ℕ_parts (pos_part (sub_ℕ p n) + pos_part r) (neg_part (sub_ℕ p n) + neg_part r),
      ))
