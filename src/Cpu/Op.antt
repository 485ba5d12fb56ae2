-- ===== src/Cpu/Op.antt =====
-- The opcodes and the selectors of src/cpu.c and src/cpu.h.
use switch_v.Common.{ℕ}

-- Opcodes.
abbrev pub r_type : ℕ
r_type = 0x33

abbrev pub ir_type : ℕ
ir_type = 0x13

abbrev pub il_type : ℕ
il_type = 0x3

abbrev pub s_type : ℕ
s_type = 0x23

abbrev pub b_type : ℕ
b_type = 0x63

abbrev pub j_type : ℕ
j_type = 0x6F

abbrev pub ij_type : ℕ
ij_type = 0x67

abbrev pub lui : ℕ
lui = 0x37

abbrev pub auipc : ℕ
auipc = 0x17

abbrev pub sys_type : ℕ
sys_type = 0x73

abbrev pub a_type : ℕ
a_type = 0x2F

-- func7 and func3 of R and IR instructions.
abbrev pub add : ℕ
add = 0x000

abbrev pub sub : ℕ
sub = 0x200

abbrev pub xor : ℕ
xor = 0x004

abbrev pub or : ℕ
or = 0x006

abbrev pub and : ℕ
and = 0x007

abbrev pub sll : ℕ
sll = 0x001

abbrev pub srl : ℕ
srl = 0x005

abbrev pub sra : ℕ
sra = 0x205

abbrev pub slt : ℕ
slt = 0x002

abbrev pub sltu : ℕ
sltu = 0x003

abbrev pub mul : ℕ
mul = 0x010

abbrev pub mulh : ℕ
mulh = 0x011

abbrev pub mulhsu : ℕ
mulhsu = 0x012

abbrev pub mulhu : ℕ
mulhu = 0x013

abbrev pub div : ℕ
div = 0x014

abbrev pub divu : ℕ
divu = 0x015

abbrev pub rem : ℕ
rem = 0x016

abbrev pub remu : ℕ
remu = 0x017

-- func3 of branches.
abbrev pub beq : ℕ
beq = 0x0

abbrev pub bne : ℕ
bne = 0x1

abbrev pub blt : ℕ
blt = 0x4

abbrev pub bge : ℕ
bge = 0x5

abbrev pub bltu : ℕ
bltu = 0x6

abbrev pub bgeu : ℕ
bgeu = 0x7

-- func3 of loads and stores.
abbrev pub lb : ℕ
lb = 0x0

abbrev pub lh : ℕ
lh = 0x1

abbrev pub lw : ℕ
lw = 0x2

abbrev pub lbu : ℕ
lbu = 0x4

abbrev pub lhu : ℕ
lhu = 0x5

abbrev pub sb : ℕ
sb = 0x0

abbrev pub sh : ℕ
sh = 0x1

abbrev pub sw : ℕ
sw = 0x2

-- func5 and func3 of atomics.
abbrev pub lr : ℕ
lr = 0x022

abbrev pub sc : ℕ
sc = 0x032

abbrev pub aswp : ℕ
aswp = 0x012

abbrev pub aadd : ℕ
aadd = 0x002

abbrev pub aand : ℕ
aand = 0x0C2

abbrev pub aor : ℕ
aor = 0x0A2

abbrev pub axor : ℕ
axor = 0x042

abbrev pub amax : ℕ
amax = 0x142

abbrev pub amin : ℕ
amin = 0x102

abbrev pub amaxu : ℕ
amaxu = 0x1C2

abbrev pub aminu : ℕ
aminu = 0x182

-- The immediate of a system instruction.
abbrev pub ecall : ℕ
ecall = 0x0

abbrev pub ebreak : ℕ
ebreak = 0x1
