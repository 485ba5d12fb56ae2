-- ===== src/Cpu/Isa/Values.antt =====
-- The values that src/cpu.c computes are those of the RISC-V manual, for operands of 32 bits.
use switch_v.Common.{ℕ, ◌+◌, ◌*◌, ◌^◌, ◌<◌, ◌≡◌, ◌≢◌, refl, ap, ◌∙◌, arith}
use switch_v.Common.{some}
use switch_v.Common.Bits.{bit_and_low, bit_or_above}
use switch_v.Common.Int.{pos, ◌*ℤ◌}
use switch_v.Common.Word.{signed32}
use switch_v.Cpu.Decode.Fields.{sign_extend}
use switch_v.Cpu.Op
use switch_v.Cpu.Alu.{mulh, mulhsu, mulhu, div, rem, r_switch, r_value, ir_value, b_taken}
use switch_v.Cpu.Alu.Mul.{mul_lem, upper_word_lem, to_u64-lt, product-lt}
use switch_v.Cpu.Instructions.{extend}
use switch_v.Cpu.Isa
use switch_v.Cpu.Isa.{
  AluOp, ImmOp, ShiftOp, LoadOp, StoreOp, BranchOp, AmoOp, amo_func5, alu_func7, alu_func3,
  imm_func3, shift_func7, shift_func3, load_func3, store_func3, branch_func3,
}
use switch_v.Cpu.Isa.Results.{alu_result, imm_result, shift_result, branch_test}

-- The tables of func7 and func3 fit the formats.
pub alu_func7-lt : (o : AluOp) → alu_func7 o < 2 ^ 7
alu_func7-lt o = grind arith

pub alu_func3-lt : (o : AluOp) → alu_func3 o < 2 ^ 3
alu_func3-lt o = grind arith

pub imm_func3-lt : (o : ImmOp) → imm_func3 o < 2 ^ 3
imm_func3-lt o = grind arith

pub shift_func7-lt : (o : ShiftOp) → shift_func7 o < 2 ^ 7
shift_func7-lt o = grind arith

pub shift_func3-lt : (o : ShiftOp) → shift_func3 o < 2 ^ 3
shift_func3-lt o = grind arith

pub load_func3-lt : (o : LoadOp) → load_func3 o < 2 ^ 3
load_func3-lt o = grind arith

pub store_func3-lt : (o : StoreOp) → store_func3 o < 2 ^ 3
store_func3-lt o = grind arith

pub branch_func3-lt : (o : BranchOp) → branch_func3 o < 2 ^ 3
branch_func3-lt o = grind arith

pub amo_func5-lt : (o : AmoOp) → amo_func5 o < 2 ^ 5
amo_func5-lt o = grind arith

-- A selector that is not a division goes to the `switch`.
r_value-r_switch :
    (f a b : ℕ)
    → f ≢ Op.div
    → f ≢ Op.divu
    → f ≢ Op.rem
    → f ≢ Op.remu
    → r_value f a b ≡ r_switch f a b
unfolding r_value
r_value-r_switch f a b = ground arith

-- The selector of an operation gives its result.
pub r_value-alu_result :
    (o : AluOp) (a b : ℕ)
    → a < 2 ^ 32
    → b < 2 ^ 32
    → r_value (alu_func7 o * 2 ^ 4 + alu_func3 o) a b ≡ some (alu_result o a b)
unfolding r_value r_switch div rem mulh mulhsu mulhu
r_value-alu_result Isa.add a b ha hb = ground arith
r_value-alu_result Isa.sub a b ha hb = ground arith
r_value-alu_result Isa.sll a b ha hb = ground (arith, bit_and_low 5 b)
r_value-alu_result Isa.slt a b ha hb = ground arith
r_value-alu_result Isa.sltu a b ha hb = ground arith
r_value-alu_result Isa.xor a b ha hb = ground arith
r_value-alu_result Isa.srl a b ha hb = ground (arith, bit_and_low 5 b)
r_value-alu_result Isa.sra a b ha hb = ground (arith, bit_and_low 5 b)
r_value-alu_result Isa.or a b ha hb = ground arith
r_value-alu_result Isa.and a b ha hb = ground arith
r_value-alu_result Isa.mul a b ha hb = ground (arith, mul_lem a b ha hb)
r_value-alu_result Isa.mulh a b ha hb =
    r_value-r_switch Op.mulh a b (omega arith) (omega arith) (omega arith) (omega arith)
    ∙ ap some (upper_word_lem _ (to_u64-lt (signed32 a *ℤ signed32 b)))
r_value-alu_result Isa.mulhsu a b ha hb =
    r_value-r_switch Op.mulhsu a b (omega arith) (omega arith) (omega arith) (omega arith)
    ∙ ap some (upper_word_lem _ (to_u64-lt (signed32 a *ℤ pos b)))
r_value-alu_result Isa.mulhu a b ha hb =
    r_value-r_switch Op.mulhu a b (omega arith) (omega arith) (omega arith) (omega arith)
    ∙ ap some (upper_word_lem _ (product-lt a b ha hb))
r_value-alu_result Isa.div a b ha hb = ground arith
r_value-alu_result Isa.divu a b ha hb = ground arith
r_value-alu_result Isa.rem a b ha hb = ground arith
r_value-alu_result Isa.remu a b ha hb = ground arith

-- So do those of the immediate formats, where a shift is selected by both functions.
pub ir_value-imm_result :
    (o : ImmOp) (f7 a k imm : ℕ)
    → a < 2 ^ 32
    → imm < 2 ^ 32
    → ir_value (f7 * 2 ^ 4 + imm_func3 o) (imm_func3 o) a k imm ≡ some (imm_result o a imm)
unfolding ir_value
ir_value-imm_result Isa.addi f7 a k imm ha hi = ground arith
ir_value-imm_result Isa.slti f7 a k imm ha hi = ground arith
ir_value-imm_result Isa.sltiu f7 a k imm ha hi = ground arith
ir_value-imm_result Isa.xori f7 a k imm ha hi = ground arith
ir_value-imm_result Isa.ori f7 a k imm ha hi = ground arith
ir_value-imm_result Isa.andi f7 a k imm ha hi = ground arith

pub ir_value-shift_result :
    (o : ShiftOp) (a k imm : ℕ)
    → ir_value (shift_func7 o * 2 ^ 4 + shift_func3 o) (shift_func3 o) a k imm
      ≡ some (shift_result o a k)
unfolding ir_value
ir_value-shift_result Isa.slli a k imm = refl
ir_value-shift_result Isa.srli a k imm = refl
ir_value-shift_result Isa.srai a k imm = refl

pub b_taken-branch_test :
    (o : BranchOp) (a b : ℕ) → b_taken (branch_func3 o) a b ≡ some (branch_test o a b)
unfolding b_taken
b_taken-branch_test Isa.beq a b = refl
b_taken-branch_test Isa.bne a b = refl
b_taken-branch_test Isa.blt a b = refl
b_taken-branch_test Isa.bge a b = refl
b_taken-branch_test Isa.bltu a b = refl
b_taken-branch_test Isa.bgeu a b = refl

-- The test and the mask of LB and LH extend the sign of what they read.
pub extend-byte : (v : ℕ) → v < 2 ^ 8 → extend 0x80 0xFFFFFF00 v ≡ sign_extend 8 v
extend-byte v h = ground (arith, bit_or_above 8 0xFFFFFF v h)

pub extend-half : (v : ℕ) → v < 2 ^ 16 → extend 0x8000 0xFFFF0000 v ≡ sign_extend 16 v
extend-half v h = ground (arith, bit_or_above 16 0xFFFF v h)
