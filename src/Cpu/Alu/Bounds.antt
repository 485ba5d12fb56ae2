-- ===== src/Cpu/Alu/Bounds.antt =====
-- What the arithmetic of src/cpu.c computes of 32-bit operands is again a 32-bit word.
use switch_v.Common.{ℕ, zero, suc, ◌+◌, ◌-◌, ◌*◌, ◌/◌, ◌^◌, ◌≤◌, ◌<◌, ◌≡◌, ap, ◌∙◌, arith}
use switch_v.Common.{bit_and, some}
use switch_v.Common.Bits.{bit_and-le, bit_and-le_right, bit_or-lt, bit_xor-lt}
use switch_v.Common.Int.{ℤ, pos, negsuc, ◌*ℤ◌, ◌/ℤ◌, ◌%ℤ◌}
use switch_v.Common.Word.{sar32, signed32, to_u32, to_u64}
use native.Mathlib.Nat.{pow-suc, mul-div_left, one-le-pow, div-le_self, div-lt_iff_lt-mul, mod-le}
use switch_v.Cpu.Alu.{upper_word, mul, mulh, mulhsu, mulhu, div, rem, r_switch, r_value, ir_value}

pub pow_split : (k j : ℕ) → 2 ^ (j + k) ≡ 2 ^ j * 2 ^ k
pow_split zero j = ground arith
pow_split (suc k) j = omega (
  arith,
  pow-suc 2 (j + k),
  pow-suc 2 k,
  pow_split k j,
  ap (λ (t : ℕ). 2 ^ t) (unary k j),
  ap (λ (t : ℕ). 2 ^ j * t) (pow-suc 2 k),
)
  where
    unary : (k j : ℕ) → j + suc k ≡ suc (j + k)
    unary k j = omega arith

word_over_pow : (k : ℕ) → k ≤ 32 → 2 ^ 32 ≡ 2 ^ (32 - k) * 2 ^ k
word_over_pow k h = ap (λ (t : ℕ). 2 ^ t) whole ∙ pow_split k (32 - k)
  where
    whole : 32 ≡ 32 - k + k
    whole = omega arith

-- An arithmetic shift by less than the width stays in the word.
pub sar32-lt : (a k : ℕ) → a < 2 ^ 32 → k ≤ 32 → sar32 a k < 2 ^ 32
sar32-lt a k h small =
    let p : 0 < 2 ^ k = one-le-pow k 2 (omega arith) in
    let e : 2 ^ 32 ≡ 2 ^ (32 - k) * 2 ^ k = word_over_pow k small in
    let q : 2 ^ 32 / 2 ^ k ≡ 2 ^ (32 - k) =
      ap (λ (t : ℕ). t / 2 ^ k) e ∙ mul-div_left (2 ^ (32 - k)) p in
    let below : a / 2 ^ k < 2 ^ (32 - k) = (div-lt_iff_lt-mul p).1 (omega arith) in
    let whole : 2 ^ (32 - k) ≤ 2 ^ 32 = omega (arith, q, div-le_self (2 ^ 32) (2 ^ k)) in
    ground (arith, q, below, whole, div-le_self a (2 ^ k))

pub to_u32-lt : (z : ℤ) → to_u32 z < 2 ^ 32
to_u32-lt (pos n) = omega arith
to_u32-lt (negsuc n) = omega arith

to_u64-lt : (z : ℤ) → to_u64 z < 2 ^ 64
to_u64-lt (pos n) = omega arith
to_u64-lt (negsuc n) = omega arith

upper_word-lt : (t : ℕ) → t < 2 ^ 64 → upper_word t < 2 ^ 32
upper_word-lt t h = omega (arith, bit_and-le 64 t 0xFFFFFFFF00000000 h)

shift-le : (b : ℕ) → bit_and b 31 ≤ 31
shift-le b = bit_and-le_right 5 b 31 (omega arith)

module _ (f a b v : ℕ) (ha : a < 2 ^ 32) (hb : b < 2 ^ 32) where
  product_lt : a * b < 2 ^ 64
  product_lt = grind arith

  r_switch-lt : r_switch f a b ≡ some v → v < 2 ^ 32
  unfolding r_switch mul mulh mulhsu mulhu div rem
  r_switch-lt h = ground (
    arith,
    bit_and-le 32 a b,
    bit_or-lt 32 a b,
    bit_xor-lt 32 a b,
    div-le_self a (2 ^ bit_and b 31),
    sar32-lt a (bit_and b 31) ha,
    shift-le b,
    to_u32-lt (signed32 a *ℤ signed32 b),
    upper_word-lt (to_u64 (signed32 a *ℤ signed32 b)) (to_u64-lt (signed32 a *ℤ signed32 b)),
    upper_word-lt (to_u64 (signed32 a *ℤ pos b)) (to_u64-lt (signed32 a *ℤ pos b)),
    upper_word-lt (a * b) product_lt,
    to_u32-lt (signed32 a /ℤ signed32 b),
    to_u32-lt (signed32 a %ℤ signed32 b),
    div-le_self a b,
    mod-le a b,
  )

  pub r_value-lt : r_value f a b ≡ some v → v < 2 ^ 32
  unfolding r_value
  r_value-lt h = ground (arith, r_switch-lt)

  -- Of the immediate form: `b` is the immediate, and a shift is by less than 32.
  pub ir_value-lt : (f3 k : ℕ) → k < 32 → ir_value f f3 a k b ≡ some v → v < 2 ^ 32
  unfolding ir_value
  ir_value-lt f3 k hk h = ground (
    arith,
    bit_and-le 32 a b,
    bit_or-lt 32 a b,
    bit_xor-lt 32 a b,
    div-le_self a (2 ^ k),
    sar32-lt a k ha,
  )
