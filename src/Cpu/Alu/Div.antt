-- ===== src/Cpu/Alu/Div.antt =====
-- The divisions of src/cpu.c: the cases of the manual, and the law of quotient and remainder.
use switch_v.Common.{
  ℕ, suc, ◌⊎◌, ◌+◌, ◌-◌, ◌*◌, ◌/◌, ◌%◌, ◌^◌, ◌≤◌, ◌<◌, ◌≡◌, ◌≢◌, refl, ap, ◌∙◌, arith, some,
}
use switch_v.Common.Int.{
  ℤ, pos, negsuc, pos_part, neg_part, sub_ℕ, mul_add_eq, pos_part-negative, neg_part-negative, ◌+ℤ◌,
  ◌*ℤ◌, ◌/ℤ◌, ◌%ℤ◌,
}
use switch_v.Common.Word.{signed32, to_u32}
use native.Mathlib.Nat.{div-add-mod, mod-lt, div-le_self, mod-le, div-lt_iff_lt-mul}
use switch_v.Cpu.Op
use switch_v.Cpu.Alu.{div, rem, r_value, r_switch}

-- The magnitude of an integer.
abbrev pub magnitude : ℤ → ℕ
magnitude z = pos_part z + neg_part z

-- The quotient that truncates, and the remainder of it, put together are the dividend, and the
-- remainder is smaller than the divisor and has no other sign than the dividend.
pub div-rem_law :
    (x y : ℤ)
    → magnitude y ≢ 0
    → (y *ℤ (x /ℤ y) +ℤ x %ℤ y ≡ x)
      × (magnitude (x %ℤ y) < magnitude y)
      × (pos_part x * neg_part (x %ℤ y) ≡ 0)
      × (neg_part x * pos_part (x %ℤ y) ≡ 0)
unfolding ◌/ℤ◌ ◌%ℤ◌
div-rem_law (pos a) (pos b) h = (
  mul_add_eq (pos b) (pos (a / b)) (pos (a % b)) (pos a) (omega (arith, div-add-mod a b)),
  omega (arith, mod-lt a {m = b}),
  omega arith,
  omega arith,
)
div-rem_law (pos a) (negsuc b) h = (
  mul_add_eq (negsuc b) (sub_ℕ 0 (a / suc b)) (pos (a % suc b)) (pos a) (
      omega (
        arith,
        div-add-mod a (suc b),
        ap (λ (t : ℕ). suc b * t) (pos_part-negative (a / suc b)),
        ap (λ (t : ℕ). suc b * t) (neg_part-negative (a / suc b)),
      )),
  omega arith,
  omega arith,
  omega arith,
)
div-rem_law (negsuc a) (pos b) h = (
  mul_add_eq (pos b) (sub_ℕ 0 (suc a / b)) (sub_ℕ 0 (suc a % b)) (negsuc a) (
      omega (
        arith,
        div-add-mod (suc a) b,
        pos_part-negative (suc a % b),
        neg_part-negative (suc a % b),
        ap (λ (t : ℕ). b * t) (pos_part-negative (suc a / b)),
        ap (λ (t : ℕ). b * t) (neg_part-negative (suc a / b)),
      )),
  omega
      (arith, mod-lt (suc a) {m = b}, pos_part-negative (suc a % b), neg_part-negative (suc a % b)),
  omega arith,
  ap (λ (t : ℕ). suc a * t) (pos_part-negative (suc a % b)) ∙ omega arith,
)
div-rem_law (negsuc a) (negsuc b) h = (
  mul_add_eq (negsuc b) (pos (suc a / suc b)) (sub_ℕ 0 (suc a % suc b)) (negsuc a) (
      omega (
        arith,
        div-add-mod (suc a) (suc b),
        pos_part-negative (suc a % suc b),
        neg_part-negative (suc a % suc b),
      )),
  omega (
    arith,
    mod-lt (suc a) {m = suc b},
    pos_part-negative (suc a % suc b),
    neg_part-negative (suc a % suc b),
  ),
  omega arith,
  ap (λ (t : ℕ). suc a * t) (pos_part-negative (suc a % suc b)) ∙ omega arith,
)

-- The integers that a word stands for.
record InRange (z : ℤ) : Type 0 where
  below : pos_part z < 2 ^ 31
  above : neg_part z ≤ 2 ^ 31

signed32-InRange : (a : ℕ) → a < 2 ^ 32 → InRange (signed32 a)
signed32-InRange a h = record { below = ground arith; above = ground arith }

signed32-to_u32 : (z : ℤ) → InRange z → signed32 (to_u32 z) ≡ z
signed32-to_u32 (pos n) r = let h : n < 2 ^ 31 = r.below in ground arith
signed32-to_u32 (negsuc n) r = let h : suc n ≤ 2 ^ 31 = r.above in ground arith

negative-InRange : (n : ℕ) → n ≤ 2 ^ 31 → InRange (sub_ℕ 0 n)
negative-InRange n h = record {
  below = omega (arith, pos_part-negative n);
  above = omega (arith, neg_part-negative n);
}

-- The remainder is in range, and so is the quotient unless the least integer is divided by -1.
rem-InRange : (x y : ℤ) → InRange x → InRange (x %ℤ y)
unfolding ◌%ℤ◌
rem-InRange (pos a) (pos b) r =
    let h : a < 2 ^ 31 = r.below in
    record { below = omega (arith, mod-le a b); above = omega arith }
rem-InRange (pos a) (negsuc b) r =
    let h : a < 2 ^ 31 = r.below in
    record { below = omega (arith, mod-le a (suc b)); above = omega arith }
rem-InRange (negsuc a) (pos b) r =
    let h : suc a ≤ 2 ^ 31 = r.above in negative-InRange _ (omega (arith, mod-le (suc a) b))
rem-InRange (negsuc a) (negsuc b) r =
    let h : suc a ≤ 2 ^ 31 = r.above in negative-InRange _ (omega (arith, mod-le (suc a) (suc b)))

div-InRange : (x y : ℤ) → InRange x → (neg_part x < 2 ^ 31) ⊎ (neg_part y ≢ 1) → InRange (x /ℤ y)
unfolding ◌/ℤ◌
div-InRange (pos a) (pos b) r e =
    let h : a < 2 ^ 31 = r.below in
    record { below = omega (arith, div-le_self a b); above = omega arith }
div-InRange (pos a) (negsuc b) r e =
    let h : a < 2 ^ 31 = r.below in negative-InRange _ (omega (arith, div-le_self a (suc b)))
div-InRange (negsuc a) (pos b) r e =
    let h : suc a ≤ 2 ^ 31 = r.above in negative-InRange _ (omega (arith, div-le_self (suc a) b))
div-InRange (negsuc a) (negsuc b) r e =
    let h : suc a ≤ 2 ^ 31 = r.above in
    record {
      below = (div-lt_iff_lt-mul {k = suc b} (omega arith)).1 (ground arith);
      above = omega arith;
    }

-- A signed word has the integer 0, -1 or the least one only as the words of these.
signed32-corner :
    (a b : ℕ)
    → a < 2 ^ 32
    → b < 2 ^ 32
    → b ≢ 0
    → (a ≢ 2 ^ 31) ⊎ (b ≢ 2 ^ 32 - 1)
    → (magnitude (signed32 b) ≢ 0)
      × ((neg_part (signed32 a) < 2 ^ 31) ⊎ (neg_part (signed32 b) ≢ 1))
signed32-corner a b ha hb nz ne = ground arith

-- DIV and REM of any other operands are selected by the `switch`.
r_value-switch :
    (f a b : ℕ) → b ≢ 0 → (a ≢ 2 ^ 31) ⊎ (b ≢ 2 ^ 32 - 1) → r_value f a b ≡ r_switch f a b
unfolding r_value
r_value-switch f a b nz ne = ground arith

-- For a divisor that is not 0, except for the least integer by -1, DIV and REM give words whose
-- integers are the quotient that truncates and the remainder: with the divisor they make the
-- dividend, the remainder is smaller than the divisor, and it is not negative for a dividend that is
-- not, nor positive for a negative one.
pub r_value-div-rem :
    (a b : ℕ)
    → a < 2 ^ 32
    → b < 2 ^ 32
    → b ≢ 0
    → (a ≢ 2 ^ 31) ⊎ (b ≢ 2 ^ 32 - 1)
    → (q : ℕ) × (r : ℕ) × (r_value Op.div a b ≡ some q)
      × (r_value Op.rem a b ≡ some r)
      × (signed32 b *ℤ signed32 q +ℤ signed32 r ≡ signed32 a)
      × (magnitude (signed32 r) < magnitude (signed32 b))
      × (pos_part (signed32 a) * neg_part (signed32 r) ≡ 0)
      × (neg_part (signed32 a) * pos_part (signed32 r) ≡ 0)
unfolding r_switch div rem
r_value-div-rem a b ha hb nz ne =
    let corner = signed32-corner a b ha hb nz ne in
    let x : ℤ = signed32 a in
    let y : ℤ = signed32 b in
    let law = div-rem_law x y corner.0 in
    let whole = signed32-to_u32 (x /ℤ y) (div-InRange x y (signed32-InRange a ha) corner.1) in
    let rest = signed32-to_u32 (x %ℤ y) (rem-InRange x y (signed32-InRange a ha)) in
    (
      div a b,
      rem a b,
      r_value-switch Op.div a b nz ne,
      r_value-switch Op.rem a b nz ne,
      rw (whole, rest) law.0,
      rw rest law.1,
      rw rest law.2,
      rw rest law.3,
    )

-- For a divisor that is not 0, DIVU and REMU give the quotient and the remainder.
pub r_value-divu-remu :
    (a b : ℕ)
    → b ≢ 0
    → (q : ℕ) × (r : ℕ) × (r_value Op.divu a b ≡ some q)
      × (r_value Op.remu a b ≡ some r)
      × (b * q + r ≡ a)
      × (r < b)
unfolding r_value r_switch
r_value-divu-remu a b nz =
    (a / b, a % b, ground arith, ground arith, div-add-mod a b, mod-lt a (omega arith))

-- By zero a quotient is all ones and a remainder the dividend, and the quotient of the least
-- integer by -1, which has no word, is that integer, with no remainder.
pub r_value_corner :
    (a : ℕ)
    → (r_value Op.div a 0 ≡ some (2 ^ 32 - 1))
      × (r_value Op.divu a 0 ≡ some (2 ^ 32 - 1))
      × (r_value Op.rem a 0 ≡ some a)
      × (r_value Op.remu a 0 ≡ some a)
      × (r_value Op.div (2 ^ 31) (2 ^ 32 - 1) ≡ some (2 ^ 31))
      × (r_value Op.rem (2 ^ 31) (2 ^ 32 - 1) ≡ some 0)
unfolding r_value
r_value_corner a = (refl, refl, refl, refl, refl, refl)
