-- ===== src/Cpu/Decode/Fields.antt =====
-- The decoders as arithmetic: each field is a quotient and a remainder of the instruction word.
use switch_v.Common.{ℕ, ◌+◌, ◌-◌, ◌*◌, ◌/◌, ◌%◌, ◌^◌, ◌<◌, ◌≡◌, ◌∙◌, ap, arith, bit_and, bit_or}
use switch_v.Common.{ltb, if◌then◌else◌}
use switch_v.Common.Word.{sar32}
use switch_v.Common.Bits.{bit_and_low, bit_and_field, bit_or_above, bit_and_comm}
use switch_v.Cpu.Decode.{
  opcode_type, rd, rs1, rs2, func, r_func, a_func, i_imm, b_imm, j_imm, u_imm, s_imm,
}

-- The bits of a word under a mask of `k` ones that stands at bit `s`.
pub masked : (k s x : ℕ) → bit_and x ((2 ^ k - 1) * 2 ^ s) ≡ x / 2 ^ s % 2 ^ k * 2 ^ s
masked k s x = bit_and_field s x (2 ^ k - 1) ∙ ap (λ (t : ℕ). t * 2 ^ s) (bit_and_low k (x / 2 ^ s))

pub masked_left : (k s x : ℕ) → bit_and ((2 ^ k - 1) * 2 ^ s) x ≡ x / 2 ^ s % 2 ^ k * 2 ^ s
masked_left k s x = bit_and_comm ((2 ^ k - 1) * 2 ^ s) x ∙ masked k s x

pub opcode_type_lem : (x : ℕ) → opcode_type x ≡ x % 2 ^ 7
unfolding opcode_type
opcode_type_lem x = bit_and_low 7 x

pub rd_lem : (x : ℕ) → rd x ≡ x / 2 ^ 7 % 2 ^ 5
unfolding rd
rd_lem x = omega (arith, masked 5 7 x)

pub rs1_lem : (x : ℕ) → rs1 x ≡ x / 2 ^ 15 % 2 ^ 5
unfolding rs1
rs1_lem x = omega (arith, masked 5 15 x)

pub rs2_lem : (x : ℕ) → rs2 x ≡ x / 2 ^ 20 % 2 ^ 5
unfolding rs2
rs2_lem x = omega (arith, masked 5 20 x)

pub func_lem : (x : ℕ) → func x ≡ x / 2 ^ 12 % 2 ^ 3
unfolding func
func_lem x = omega (arith, masked 3 12 x)

-- Two operands of `|` that are known to be a low field and a field above it.
joined : (k a b q r : ℕ) → a ≡ r → b ≡ q * 2 ^ k → r < 2 ^ k → bit_or a b ≡ r + q * 2 ^ k
joined k a b q r low high fits = rw (low, high) (bit_or_above k q r fits)

pub r_func_lem : (x : ℕ) → r_func x ≡ x / 2 ^ 12 % 2 ^ 3 + x / 2 ^ 25 % 2 ^ 7 * 2 ^ 4
unfolding r_func
r_func_lem x =
    joined 4 _ _ (x / 2 ^ 25 % 2 ^ 7) (x / 2 ^ 12 % 2 ^ 3) (omega (arith, masked 3 12 x))
      (omega (arith, masked 7 25 x)) (omega arith)

pub a_func_lem : (x : ℕ) → a_func x ≡ x / 2 ^ 12 % 2 ^ 3 + x / 2 ^ 27 % 2 ^ 5 * 2 ^ 4
unfolding a_func
a_func_lem x =
    joined 4 _ _ (x / 2 ^ 27 % 2 ^ 5) (x / 2 ^ 12 % 2 ^ 3) (omega (arith, masked 3 12 x))
      (omega (arith, masked 5 27 x)) (omega arith)

-- The 32-bit word of a `k`-bit number in two's complement.
abbrev pub sign_extend : ℕ → ℕ → ℕ
sign_extend k v = if ltb v (2 ^ (k - 1)) then v else v + (2 ^ 32 - 2 ^ k)

pub i_imm_lem : (x : ℕ) → x < 2 ^ 32 → i_imm x ≡ sign_extend 12 (x / 2 ^ 20)
unfolding i_imm
i_imm_lem x h = ground (arith, masked 12 20 x)

pub u_imm_lem : (x : ℕ) → x < 2 ^ 32 → u_imm x ≡ x / 2 ^ 12 * 2 ^ 12
unfolding u_imm
u_imm_lem x h = omega (arith, masked 20 12 x)

pub s_imm_lem :
    (x : ℕ) → x < 2 ^ 32 → s_imm x ≡ sign_extend 12 (x / 2 ^ 7 % 2 ^ 5 + x / 2 ^ 25 * 2 ^ 5)
unfolding s_imm
s_imm_lem x h =
    joined 5 _ _ (sign_extend 7 (x / 2 ^ 25) % 2 ^ 27) (x / 2 ^ 7 % 2 ^ 5) (rd_lem x)
      (ground (arith, masked 7 25 x)) (omega arith)
    ∙ ground arith

abbrev b_low : ℕ → ℕ
b_low x = x / 2 ^ 8 % 2 ^ 4 * 2 + x / 2 ^ 25 % 2 ^ 6 * 2 ^ 5

abbrev b_middle : ℕ → ℕ
b_middle x = b_low x + x / 2 ^ 7 % 2 * 2 ^ 11

pub b_imm_lem : (x : ℕ) → x < 2 ^ 32 → b_imm x ≡ sign_extend 13 (b_middle x + x / 2 ^ 31 * 2 ^ 12)
unfolding b_imm
b_imm_lem x h =
    joined 12 _ _ (x / 2 ^ 31 * (2 ^ 20 - 1)) (b_middle x)
      (joined 11 _ _ (x / 2 ^ 7 % 2) (b_low x)
        (joined 5 _ _ (x / 2 ^ 25 % 2 ^ 6) (x / 2 ^ 8 % 2 ^ 4 * 2)
          (omega (arith, masked_left 4 8 x)) (omega (arith, masked_left 6 25 x)) (omega arith))
        (omega (arith, masked_left 1 7 x)) (omega arith))
      (ground (arith, masked_left 1 31 x)) (omega arith)
    ∙ ground arith

abbrev j_low : ℕ → ℕ
j_low x = x / 2 ^ 21 % 2 ^ 10 * 2 + x / 2 ^ 20 % 2 * 2 ^ 11

abbrev j_middle : ℕ → ℕ
j_middle x = j_low x + x / 2 ^ 12 % 2 ^ 8 * 2 ^ 12

pub j_imm_lem : (x : ℕ) → x < 2 ^ 32 → j_imm x ≡ sign_extend 21 (j_middle x + x / 2 ^ 31 * 2 ^ 20)
unfolding j_imm
j_imm_lem x h =
    joined 20 _ _ (x / 2 ^ 31 * (2 ^ 12 - 1)) (j_middle x)
      (joined 12 _ _ (x / 2 ^ 12 % 2 ^ 8) (j_low x)
        (joined 11 _ _ (x / 2 ^ 20 % 2) (x / 2 ^ 21 % 2 ^ 10 * 2)
          (omega (arith, bit_and_low 10 (x / 2 ^ 21))) (omega (arith, bit_and_low 1 (x / 2 ^ 20)))
          (omega arith))
        (omega (arith, bit_and_low 8 (x / 2 ^ 12))) (omega arith))
      (ground (arith, masked 12 20 (sar32 x 11))) (omega arith)
    ∙ ground arith
