-- ===== src/Cpu/Reg.antt =====
-- The indices of the register file, `REG_LIST` of src/cpu.h: those that the code names. The 32
-- registers of an instruction are below 32, and the program counter and the CSRs follow.
use switch_v.Common.{ℕ}

abbrev pub zero : ℕ
zero = 0

abbrev pub sp : ℕ
sp = 2

abbrev pub gp : ℕ
gp = 3

abbrev pub a0 : ℕ
a0 = 10

abbrev pub a1 : ℕ
a1 = 11

abbrev pub a2 : ℕ
a2 = 12

abbrev pub a3 : ℕ
a3 = 13

abbrev pub a6 : ℕ
a6 = 16

abbrev pub a7 : ℕ
a7 = 17

abbrev pub pc : ℕ
pc = 32

abbrev pub satp : ℕ
satp = 33

abbrev pub sstatus : ℕ
sstatus = 34

abbrev pub scause : ℕ
scause = 35

abbrev pub stval : ℕ
stval = 36

abbrev pub stvec : ℕ
stvec = 37

abbrev pub sepc : ℕ
sepc = 38

abbrev pub sscratch : ℕ
sscratch = 39

abbrev pub sie : ℕ
sie = 40

abbrev pub sip : ℕ
sip = 41

abbrev pub scounteren : ℕ
scounteren = 42

abbrev pub senvcfg : ℕ
senvcfg = 43

abbrev pub reg_nums : ℕ
reg_nums = 44
