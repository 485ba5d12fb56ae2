-- ===== src/Cpu/Isa.antt =====
-- The instructions of RV32IM and the AMOs of the A extension as the RISC-V manual describes them,
-- without reference to src/cpu.c: a syntax, its words, and the values that they compute. Fences,
-- system instructions, LR and SC are not part of it.
use switch_v.Common.{ℕ, ◌+◌, ◌-◌, ◌*◌, ◌/◌, ◌%◌, ◌^◌, ◌<◌, ◌≡◌, ◌≢◌, bit_and, bit_or, bit_xor}
use switch_v.Common.{Bool, not, ◌&&◌, ltb, ◌==◌, if◌then◌else◌, update}
use switch_v.Common.Int.{pos, ◌*ℤ◌, ◌/ℤ◌, ◌%ℤ◌, ltb_ℤ}
use switch_v.Common.Word.{add32, sub32, sar32, signed32, to_u32, to_u64}
use switch_v.Common.Outcome.{Outcome, ok, ◌>>=◌}
use switch_v.Memory.{Memory, mem_rb, mem_rh, mem_rw, mem_wb, mem_wh, mem_ww}
use switch_v.Cpu.Decode.Fields.{sign_extend}
use switch_v.Cpu.Decode.Encoding.{encode_r, encode_i, encode_s, encode_b, encode_u, encode_j}
use switch_v.Cpu.State.{VCore}
pub mod Results
pub mod Values
pub mod Hart
pub mod Transfers
pub mod Accesses
pub mod Atomics
pub mod Refines
pub mod Programs

pub data AluOp : Type 0 where
  add sub sll slt sltu xor srl sra or and : AluOp
  mul mulh mulhsu mulhu div divu rem remu : AluOp

pub data ImmOp : Type 0 where
  addi slti sltiu xori ori andi : ImmOp

pub data ShiftOp : Type 0 where
  slli srli srai : ShiftOp

pub data LoadOp : Type 0 where
  lb lh lw lbu lhu : LoadOp

pub data StoreOp : Type 0 where
  sb sh sw : StoreOp

pub data BranchOp : Type 0 where
  beq bne blt bge bltu bgeu : BranchOp

pub data AmoOp : Type 0 where
  amoswap amoadd amoxor amoand amoor amomin amomax amominu amomaxu : AmoOp

-- The destination stands first, the sources next, the immediate last; `amo` has its bits for the
-- memory order after the operation.
pub data Instr : Type 0 where
  alu : AluOp → ℕ → ℕ → ℕ → Instr
  alu_imm : ImmOp → ℕ → ℕ → ℕ → Instr
  shift_imm : ShiftOp → ℕ → ℕ → ℕ → Instr
  load : LoadOp → ℕ → ℕ → ℕ → Instr
  store : StoreOp → ℕ → ℕ → ℕ → Instr
  branch : BranchOp → ℕ → ℕ → ℕ → Instr
  jal : ℕ → ℕ → Instr
  jalr : ℕ → ℕ → ℕ → Instr
  lui auipc : ℕ → ℕ → Instr
  amo : AmoOp → ℕ → ℕ → ℕ → ℕ → Instr

-- func7 and func3 of the register format.
abbrev pub alu_func7 : AluOp → ℕ
alu_func7 add = 0
alu_func7 sub = 32
alu_func7 sll = 0
alu_func7 slt = 0
alu_func7 sltu = 0
alu_func7 xor = 0
alu_func7 srl = 0
alu_func7 sra = 32
alu_func7 or = 0
alu_func7 and = 0
alu_func7 _ = 1

abbrev pub alu_func3 : AluOp → ℕ
alu_func3 add = 0
alu_func3 sub = 0
alu_func3 sll = 1
alu_func3 slt = 2
alu_func3 sltu = 3
alu_func3 xor = 4
alu_func3 srl = 5
alu_func3 sra = 5
alu_func3 or = 6
alu_func3 and = 7
alu_func3 mul = 0
alu_func3 mulh = 1
alu_func3 mulhsu = 2
alu_func3 mulhu = 3
alu_func3 div = 4
alu_func3 divu = 5
alu_func3 rem = 6
alu_func3 remu = 7

abbrev pub imm_func3 : ImmOp → ℕ
imm_func3 addi = 0
imm_func3 slti = 2
imm_func3 sltiu = 3
imm_func3 xori = 4
imm_func3 ori = 6
imm_func3 andi = 7

abbrev pub shift_func7 : ShiftOp → ℕ
shift_func7 slli = 0
shift_func7 srli = 0
shift_func7 srai = 32

abbrev pub shift_func3 : ShiftOp → ℕ
shift_func3 slli = 1
shift_func3 srli = 5
shift_func3 srai = 5

abbrev pub load_func3 : LoadOp → ℕ
load_func3 lb = 0
load_func3 lh = 1
load_func3 lw = 2
load_func3 lbu = 4
load_func3 lhu = 5

abbrev pub store_func3 : StoreOp → ℕ
store_func3 sb = 0
store_func3 sh = 1
store_func3 sw = 2

abbrev pub branch_func3 : BranchOp → ℕ
branch_func3 beq = 0
branch_func3 bne = 1
branch_func3 blt = 4
branch_func3 bge = 5
branch_func3 bltu = 6
branch_func3 bgeu = 7

abbrev pub amo_func5 : AmoOp → ℕ
amo_func5 amoadd = 0b00000
amo_func5 amoswap = 0b00001
amo_func5 amoxor = 0b00100
amo_func5 amoor = 0b01000
amo_func5 amoand = 0b01100
amo_func5 amomin = 0b10000
amo_func5 amomax = 0b10100
amo_func5 amominu = 0b11000
amo_func5 amomaxu = 0b11100

-- The word of an instruction.
abbrev pub encode : Instr → ℕ
encode (alu o d r1 r2) = encode_r (alu_func7 o) r2 r1 (alu_func3 o) d 0b0110011
encode (alu_imm o d r1 imm) = encode_i imm r1 (imm_func3 o) d 0b0010011
encode (shift_imm o d r1 k) = encode_r (shift_func7 o) k r1 (shift_func3 o) d 0b0010011
encode (load o d r1 imm) = encode_i imm r1 (load_func3 o) d 0b0000011
encode (store o r1 r2 imm) = encode_s imm r2 r1 (store_func3 o) 0b0100011
encode (branch o r1 r2 offset) = encode_b offset r2 r1 (branch_func3 o) 0b1100011
encode (jal d offset) = encode_j offset d 0b1101111
encode (jalr d r1 imm) = encode_i imm r1 0 d 0b1100111
encode (lui d upper) = encode_u upper d 0b0110111
encode (auipc d upper) = encode_u upper d 0b0010111
encode (amo o order d r1 r2) = encode_r (amo_func5 o * 4 + order) r2 r1 2 d 0b0101111

-- The fields have the widths of their formats, and the offsets of jumps are even. Of the indirect
-- jumps it has those whose link register is not their base, and of the AMOs all but AMOOR, which
-- src/cpu.c does not know by its selector.
abbrev pub IsInstr : Instr → Type 0
IsInstr (alu o d r1 r2) = (d < 2 ^ 5) × (r1 < 2 ^ 5) × (r2 < 2 ^ 5)
IsInstr (alu_imm o d r1 imm) = (d < 2 ^ 5) × (r1 < 2 ^ 5) × (imm < 2 ^ 12)
IsInstr (shift_imm o d r1 k) = (d < 2 ^ 5) × (r1 < 2 ^ 5) × (k < 2 ^ 5)
IsInstr (load o d r1 imm) = (d < 2 ^ 5) × (r1 < 2 ^ 5) × (imm < 2 ^ 12)
IsInstr (store o r1 r2 imm) = (r1 < 2 ^ 5) × (r2 < 2 ^ 5) × (imm < 2 ^ 12)
IsInstr (branch o r1 r2 offset) = (r1 < 2 ^ 5) × (r2 < 2 ^ 5) × (offset < 2 ^ 13) × (offset % 2 ≡ 0)
IsInstr (jal d offset) = (d < 2 ^ 5) × (offset < 2 ^ 21) × (offset % 2 ≡ 0)
IsInstr (jalr d r1 imm) = (d < 2 ^ 5) × (r1 < 2 ^ 5) × (imm < 2 ^ 12) × (d ≢ r1)
IsInstr (lui d upper) = (d < 2 ^ 5) × (upper < 2 ^ 20)
IsInstr (auipc d upper) = (d < 2 ^ 5) × (upper < 2 ^ 20)
IsInstr (amo o order d r1 r2) =
    (order < 4) × (d < 2 ^ 5) × (r1 < 2 ^ 5) × (r2 < 2 ^ 5) × (o ≢ amoor)
