-- ===== src/Cpu/Isa/Results.antt =====
-- The values that the instructions compute, as the RISC-V manual describes them, without reference to
-- src/cpu.c.
use switch_v.Common.{ℕ, ◌+◌, ◌-◌, ◌*◌, ◌/◌, ◌%◌, ◌^◌, bit_and, bit_or, bit_xor}
use switch_v.Common.{Bool, not, ◌&&◌, ltb, ◌==◌, if◌then◌else◌}
use switch_v.Common.Int.{pos, ◌*ℤ◌, ◌/ℤ◌, ◌%ℤ◌, ltb_ℤ}
use switch_v.Common.Word.{sar32, signed32, to_u32, to_u64}
use switch_v.Common.Outcome.{Outcome, ok, ◌>>=◌}
use switch_v.Memory.{Memory, mem_rb, mem_rh, mem_rw, mem_wb, mem_wh, mem_ww}
use switch_v.Cpu.Decode.Fields.{sign_extend}
use switch_v.Cpu.Isa.{
  AluOp, add, sub, sll, slt, sltu, xor, srl, sra, or, and, mul, mulh, mulhsu, mulhu, div, divu, rem,
  remu, ImmOp, addi, slti, sltiu, xori, ori, andi, ShiftOp, slli, srli, srai, LoadOp, lb, lh, lw,
  lbu, lhu, StoreOp, sb, sh, sw, BranchOp, beq, bne, blt, bge, bltu, bgeu, AmoOp, amoswap, amoadd,
  amoxor, amoand, amoor, amomin, amomax, amominu, amomaxu,
}

abbrev flag : Bool → ℕ
flag b = if b then 1 else 0

-- The division table of the manual: by zero a quotient is all ones, and the signed overflow gives
-- the dividend.
abbrev pub alu_result : AluOp → ℕ → ℕ → ℕ
alu_result add a b = (a + b) % 2 ^ 32
alu_result sub a b = (a + 2 ^ 32 - b) % 2 ^ 32
alu_result sll a b = a * 2 ^ (b % 32) % 2 ^ 32
alu_result slt a b = flag (ltb_ℤ (signed32 a) (signed32 b))
alu_result sltu a b = flag (ltb a b)
alu_result xor a b = bit_xor a b
alu_result srl a b = a / 2 ^ (b % 32)
alu_result sra a b = sar32 a (b % 32)
alu_result or a b = bit_or a b
alu_result and a b = bit_and a b
alu_result mul a b = a * b % 2 ^ 32
alu_result mulh a b = to_u64 (signed32 a *ℤ signed32 b) / 2 ^ 32
alu_result mulhsu a b = to_u64 (signed32 a *ℤ pos b) / 2 ^ 32
alu_result mulhu a b = a * b / 2 ^ 32
alu_result div a b =
    if b == 0
    then 2 ^ 32 - 1
    else if a == 2 ^ 31 && b == 2 ^ 32 - 1
    then 2 ^ 31
    else to_u32 (signed32 a /ℤ signed32 b)
alu_result divu a b = if b == 0 then 2 ^ 32 - 1 else a / b
alu_result rem a b =
    if b == 0
    then a
    else if a == 2 ^ 31 && b == 2 ^ 32 - 1
    then 0
    else to_u32 (signed32 a %ℤ signed32 b)
alu_result remu a b = if b == 0 then a else a % b

-- The second operand is the immediate, sign-extended.
abbrev pub imm_result : ImmOp → ℕ → ℕ → ℕ
imm_result addi a imm = alu_result add a imm
imm_result slti a imm = alu_result slt a imm
imm_result sltiu a imm = alu_result sltu a imm
imm_result xori a imm = alu_result xor a imm
imm_result ori a imm = alu_result or a imm
imm_result andi a imm = alu_result and a imm

abbrev pub shift_result : ShiftOp → ℕ → ℕ → ℕ
shift_result slli a k = a * 2 ^ k % 2 ^ 32
shift_result srli a k = a / 2 ^ k
shift_result srai a k = sar32 a k

abbrev pub branch_test : BranchOp → ℕ → ℕ → Bool
branch_test beq a b = a == b
branch_test bne a b = not (a == b)
branch_test blt a b = ltb_ℤ (signed32 a) (signed32 b)
branch_test bge a b = not (ltb_ℤ (signed32 a) (signed32 b))
branch_test bltu a b = ltb a b
branch_test bgeu a b = not (ltb a b)

abbrev pub load_result : LoadOp → Memory → ℕ → Outcome ℕ
load_result lb mem addr = mem_rb mem addr >>= λ v. ok (sign_extend 8 v)
load_result lh mem addr = mem_rh mem addr >>= λ v. ok (sign_extend 16 v)
load_result lw mem addr = mem_rw mem addr
load_result lbu mem addr = mem_rb mem addr
load_result lhu mem addr = mem_rh mem addr

abbrev pub store_result : StoreOp → Memory → ℕ → ℕ → Outcome Memory
store_result sb mem addr v = mem_wb mem addr (v % 2 ^ 8)
store_result sh mem addr v = mem_wh mem addr (v % 2 ^ 16)
store_result sw mem addr v = mem_ww mem addr v

-- What an AMO leaves of the old word and its operand.
abbrev pub amo_result : AmoOp → ℕ → ℕ → ℕ
amo_result amoswap old v = v
amo_result amoadd old v = (old + v) % 2 ^ 32
amo_result amoxor old v = bit_xor old v
amo_result amoand old v = bit_and old v
amo_result amoor old v = bit_or old v
amo_result amomin old v = if ltb_ℤ (signed32 old) (signed32 v) then old else v
amo_result amomax old v = if ltb_ℤ (signed32 v) (signed32 old) then old else v
amo_result amominu old v = if ltb old v then old else v
amo_result amomaxu old v = if ltb v old then old else v
