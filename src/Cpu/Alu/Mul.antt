-- ===== src/Cpu/Alu/Mul.antt =====
-- The four multiplications of src/cpu.c against the product.
use switch_v.Common.{ℕ, ◌+◌, ◌*◌, ◌/◌, ◌%◌, ◌^◌, ◌<◌, ◌≡◌, ap, arith}
use switch_v.Common.{ltb, if◌then◌else◌}
use switch_v.Common.Int.{ℤ, pos, negsuc, pos_part, neg_part, sub_ℕ, ◌*ℤ◌}
use switch_v.Common.Word.{signed32, to_u32, to_u64}
use switch_v.Cpu.Alu.{upper_word, mul, mulh, mulhsu, mulhu}
use switch_v.Cpu.Decode.Fields.{masked}

pub upper_word_lem : (t : ℕ) → t < 2 ^ 64 → upper_word t ≡ t / 2 ^ 32
upper_word_lem t h = omega (arith, masked 32 32 t)

pub to_u64-lt : (z : ℤ) → to_u64 z < 2 ^ 64
to_u64-lt (pos n) = omega arith
to_u64-lt (negsuc n) = omega arith

to_u32-to_u64 : (z : ℤ) → to_u32 z ≡ to_u64 z % 2 ^ 32
to_u32-to_u64 (pos n) = omega arith
to_u32-to_u64 (negsuc n) = omega arith

-- The two words of an integer, put together, are its residue.
words_of : (z : ℤ) → upper_word (to_u64 z) * 2 ^ 32 + to_u32 z ≡ to_u64 z
words_of z = omega (arith, upper_word_lem (to_u64 z) (to_u64-lt z), to_u32-to_u64 z)

-- The residue of a difference.
to_u32-sub_ℕ :
    (p q t k j : ℕ) → p + k * 2 ^ 32 ≡ q + t + j * 2 ^ 32 → to_u32 (sub_ℕ p q) ≡ t % 2 ^ 32
to_u32-sub_ℕ p q t k j h = ground arith

-- A word and the integer that it stands for differ by 0 or 1 times 2 ^ 32.
abbrev sign_bit : ℕ → ℕ
sign_bit a = if ltb a (2 ^ 31) then 0 else 1

signed32_parts :
    (a : ℕ) → a < 2 ^ 32 → pos_part (signed32 a) + sign_bit a * 2 ^ 32 ≡ neg_part (signed32 a) + a
signed32_parts a h = ground arith

module _ (a b : ℕ) (ha : a < 2 ^ 32) (hb : b < 2 ^ 32) where
  pub product-lt : a * b < 2 ^ 64
  product-lt = grind arith

  -- The lower word of the signed product is that of the unsigned one.
  pub mul_lem : mul a b ≡ a * b % 2 ^ 32
  unfolding mul ◌*ℤ◌
  mul_lem =
      let p : ℕ = pos_part (signed32 a) in
      let n : ℕ = neg_part (signed32 a) in
      let p' : ℕ = pos_part (signed32 b) in
      let n' : ℕ = neg_part (signed32 b) in
      to_u32-sub_ℕ (p * p' + n * n') (p * n' + n * p') (a * b) (sign_bit b * a + sign_bit a * b)
        (sign_bit a * sign_bit b * 2 ^ 32)
        (omega (
          arith,
          ap (λ (t : ℕ). t * p') (signed32_parts a ha),
          ap (λ (t : ℕ). t * n') (signed32_parts a ha),
          ap (λ (t : ℕ). a * t) (signed32_parts b hb),
          ap (λ (t : ℕ). sign_bit a * t) (signed32_parts b hb),
        ))

  mul_unsigned_signed : to_u32 (signed32 a *ℤ pos b) ≡ a * b % 2 ^ 32
  unfolding ◌*ℤ◌
  mul_unsigned_signed =
      let e = ap (λ (t : ℕ). t * b) (signed32_parts a ha) in
      to_u32-sub_ℕ (pos_part (signed32 a) * b + neg_part (signed32 a) * 0)
        (pos_part (signed32 a) * 0 + neg_part (signed32 a) * b) (a * b) (sign_bit a * b) 0
        (omega (arith, e))

  -- MUL gives the lower word and MULH, MULHSU and MULHU the upper word of the signed, the mixed and
  -- the unsigned 64-bit product of two 32-bit operands.
  pub mul_words :
      (mulh a b * 2 ^ 32 + mul a b ≡ to_u64 (signed32 a *ℤ signed32 b))
      × (mulhsu a b * 2 ^ 32 + mul a b ≡ to_u64 (signed32 a *ℤ pos b))
      × (mulhu a b * 2 ^ 32 + mul a b ≡ a * b)
  unfolding mulh mulhsu mulhu
  mul_words = (
    unfold mul in words_of (signed32 a *ℤ signed32 b),
    omega (arith, words_of (signed32 a *ℤ pos b), mul_unsigned_signed, mul_lem),
    omega (arith, upper_word_lem (a * b) product-lt, mul_lem),
  )
