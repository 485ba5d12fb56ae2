-- ===== src/Cpu/Alu.antt =====
-- The values that `vcore_r_type` and `vcore_ir_type` of src/cpu.c compute from their operands.
-- `none` is the `default` branch, an illegal instruction.
use switch_v.Common.{
  ℕ, ◌+◌, ◌-◌, ◌*◌, ◌/◌, ◌%◌, ◌^◌, bit_and, bit_or, bit_xor, Bool, not, ◌&&◌, ◌||◌,
}
use switch_v.Common.{Option, none, some, ltb, ◌==◌, if◌then◌else◌}
use switch_v.Common.Int.{ℤ, pos, ◌*ℤ◌, ◌/ℤ◌, ◌%ℤ◌, ltb_ℤ}
use switch_v.Common.Word.{u32, add32, sub32, shl32, shr, sar32, signed32, to_u32, to_u64}
use switch_v.Cpu.Op
pub mod Mul
pub mod Div
pub mod Bounds

-- The upper word of a 64-bit product: masked, then shifted.
abbrev pub upper_word : ℕ → ℕ
upper_word tmp_mul = shr (bit_and tmp_mul 0xFFFFFFFF00000000) 32

unfoldable pub mul : ℕ → ℕ → ℕ
mul a b = to_u32 (signed32 a *ℤ signed32 b)

unfoldable pub mulh : ℕ → ℕ → ℕ
mulh a b = upper_word (to_u64 (signed32 a *ℤ signed32 b))

unfoldable pub mulhsu : ℕ → ℕ → ℕ
mulhsu a b = upper_word (to_u64 (signed32 a *ℤ pos b))

unfoldable pub mulhu : ℕ → ℕ → ℕ
mulhu a b = upper_word (a * b)

unfoldable pub div : ℕ → ℕ → ℕ
div a b = to_u32 (signed32 a /ℤ signed32 b)

unfoldable pub rem : ℕ → ℕ → ℕ
rem a b = to_u32 (signed32 a %ℤ signed32 b)

-- The `switch` over the selector.
unfoldable pub r_switch : ℕ → ℕ → ℕ → Option ℕ
r_switch f a b =
    if f == Op.add
    then some (add32 a b)
    else if f == Op.sub
    then some (sub32 a b)
    else if f == Op.xor
    then some (bit_xor a b)
    else if f == Op.or
    then some (bit_or a b)
    else if f == Op.and
    then some (bit_and a b)
    else if f == Op.sll
    then some (shl32 a (bit_and b 31))
    else if f == Op.srl
    then some (shr a (bit_and b 31))
    else if f == Op.sra
    then some (sar32 a (bit_and b 31))
    else if f == Op.slt
    then some (if ltb_ℤ (signed32 a) (signed32 b) then 1 else 0)
    else if f == Op.sltu
    then some (if ltb a b then 1 else 0)
    else if f == Op.mul
    then some (mul a b)
    else if f == Op.mulh
    then some (mulh a b)
    else if f == Op.mulhsu
    then some (mulhsu a b)
    else if f == Op.mulhu
    then some (mulhu a b)
    else if f == Op.div
    then some (div a b)
    else if f == Op.divu
    then some (a / b)
    else if f == Op.rem
    then some (rem a b)
    else if f == Op.remu
    then some (a % b)
    else none

-- The tests before the `switch`. `(signed) rs2 == -1` and `(signed) rs1 == INT32_MIN` are tests of
-- the bit patterns.
unfoldable pub r_value : ℕ → ℕ → ℕ → Option ℕ
r_value f a b =
    if b == 0 && (f == Op.div || f == Op.divu)
    then some 0xFFFFFFFF
    else if b == 0 && (f == Op.rem || f == Op.remu)
    then some a
    else if b == 0xFFFFFFFF && a == 0x80000000 && f == Op.div
    then some 0x80000000
    else if b == 0xFFFFFFFF && a == 0x80000000 && f == Op.rem
    then some 0
    else r_switch f a b

-- The three shifts are selected by func7 and func3, before the immediate is decoded; the others
-- by func3 alone.
unfoldable pub ir_value : ℕ → ℕ → ℕ → ℕ → ℕ → Option ℕ
ir_value f7f3 f3 a shift_imm imm =
    if f7f3 == Op.sra
    then some (sar32 a shift_imm)
    else if f7f3 == Op.srl
    then some (shr a shift_imm)
    else if f7f3 == Op.sll
    then some (shl32 a shift_imm)
    else if f3 == Op.add
    then some (add32 a imm)
    else if f3 == Op.xor
    then some (bit_xor a imm)
    else if f3 == Op.or
    then some (bit_or a imm)
    else if f3 == Op.and
    then some (bit_and a imm)
    else if f3 == Op.slt
    then some (if ltb_ℤ (signed32 a) (signed32 imm) then 1 else 0)
    else if f3 == Op.sltu
    then some (if ltb a imm then 1 else 0)
    else none

-- The tests of `vcore_b_type`: `none` is the `default` branch.
unfoldable pub b_taken : ℕ → ℕ → ℕ → Option Bool
b_taken f a b =
    if f == Op.beq
    then some (a == b)
    else if f == Op.bne
    then some (not (a == b))
    else if f == Op.blt
    then some (ltb_ℤ (signed32 a) (signed32 b))
    else if f == Op.bge
    then some (not (ltb_ℤ (signed32 a) (signed32 b)))
    else if f == Op.bltu
    then some (ltb a b)
    else if f == Op.bgeu
    then some (not (ltb a b))
    else none
