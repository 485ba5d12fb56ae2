-- ===== src/Cpu/Instructions.antt =====
-- One function for each `vcore_*_type` of src/cpu.c. The operands are read before the destination
-- is written, as there; only `vcore_ij_type` reads its base register afterwards.
use switch_v.Common.{ℕ, bit_or, Bool, true, false, Option, none, some}
use switch_v.Common.{leb, ◌==◌, if◌then◌else◌}
use switch_v.Common.Word.{u8, u16, add32}
use switch_v.Common.Outcome.{Outcome, ok, ◌>>=◌}
use switch_v.Memory.{
  Memory, Fetched, mem_rb, mem_rh, mem_rw, mem_wb, mem_wh, mem_ww, mem_cas, mem_aread,
}
use switch_v.Memory.{
  mem_aswp, mem_aadd, mem_aand, mem_aor, mem_axor, mem_amax, mem_amin, mem_amaxu, mem_aminu,
}
use switch_v.Cpu.Op
use switch_v.Cpu.Reg
use switch_v.Cpu.Decode.{rd, rs1, rs2, func, r_func, a_func, i_imm, b_imm, j_imm, u_imm, s_imm}
use switch_v.Cpu.Alu.{r_value, ir_value, b_taken}
use switch_v.Cpu.State.{Machine, reg, write, Platform}

-- `trap_code` of src/trap.h.
abbrev pub ill_ins : ℕ
ill_ins = 2

-- `core->regs[PC] += n`.
abbrev pub advance : {W : Type 0} → Machine W → ℕ → Machine W
advance m n = write m Reg.pc (add32 (reg m Reg.pc) n)

unfoldable pub vcore_j_type : {W : Type 0} → ℕ → Machine W → Outcome (Machine W)
vcore_j_type ins m =
    let linked = write m (rd ins) (add32 (reg m Reg.pc) 4) in ok (advance linked (j_imm ins))

unfoldable pub vcore_ij_type : {W : Type 0} → ℕ → Machine W → Outcome (Machine W)
vcore_ij_type ins m =
    let linked = write m (rd ins) (add32 (reg m Reg.pc) 4) in
    ok (write linked Reg.pc (add32 (reg linked (rs1 ins)) (i_imm ins)))

unfoldable pub vcore_lui_type : {W : Type 0} → ℕ → Machine W → Outcome (Machine W)
vcore_lui_type ins m = ok (advance (write m (rd ins) (u_imm ins)) 4)

unfoldable pub vcore_auipc_type : {W : Type 0} → ℕ → Machine W → Outcome (Machine W)
vcore_auipc_type ins m = ok (advance (write m (rd ins) (add32 (reg m Reg.pc) (u_imm ins))) 4)

-- `if (*rd >= sign) *rd |= ones`.
abbrev pub extend : ℕ → ℕ → ℕ → ℕ
extend sign ones v = if leb sign v then bit_or v ones else v

abbrev pub loaded : {W : Type 0} → Machine W → ℕ → ℕ → Outcome (Machine W)
loaded m dest v = ok (advance (write m dest v) 4)

abbrev pub stored : {W : Type 0} → Machine W → Memory → Outcome (Machine W)
stored m mem = ok (advance (record m { mem = mem }) 4)

abbrev pub fetched : {W : Type 0} → Machine W → ℕ → Fetched → Outcome (Machine W)
fetched m dest r = r >>= λ p. ok (advance (write (record m { mem = p.1 }) dest p.0) 4)

-- LR sets the flag and keeps the word in `reserved`.
unfoldable pub load_reserved : {W : Type 0} → Machine W → ℕ → Outcome (Machine W)
load_reserved m addr = mem_aread m.mem addr >>= λ v.
    ok (advance (record m { core = record m.core { ll_sc_flag = true; reserved = v } }) 4)

-- SC with no LR before it reports 1 and returns with the program counter where it was.
unfoldable pub store_conditional : {W : Type 0} → Machine W → ℕ → ℕ → ℕ → Outcome (Machine W)
store_conditional m dest addr v =
    if m.core.ll_sc_flag
    then (mem_cas m.mem addr v m.core.reserved >>= λ mem. ok (
        advance (write (record m { core = record m.core { ll_sc_flag = false }; mem = mem }) dest 0)
          4))
    else ok (write m dest 1)

-- The AMO of a selector.
unfoldable pub amo : ℕ → Memory → ℕ → ℕ → Option Fetched
amo f mem addr v =
    if f == Op.aswp
    then some (mem_aswp mem addr v)
    else if f == Op.aadd
    then some (mem_aadd mem addr v)
    else if f == Op.aand
    then some (mem_aand mem addr v)
    else if f == Op.aor
    then some (mem_aor mem addr v)
    else if f == Op.axor
    then some (mem_axor mem addr v)
    else if f == Op.amax
    then some (mem_amax mem addr v)
    else if f == Op.amin
    then some (mem_amin mem addr v)
    else if f == Op.amaxu
    then some (mem_amaxu mem addr v)
    else if f == Op.aminu
    then some (mem_aminu mem addr v)
    else none

module _ {W : Type 0} (platform : Platform W) where
  open platform use {dispatch_trap}

  abbrev pub trap_and_advance : Machine W → ℕ → Outcome (Machine W)
  trap_and_advance m faulting_val = dispatch_trap ill_ins faulting_val m >>= λ m'. ok (advance m' 4)

  -- What follows a computed value: the destination and the program counter are written. The trap
  -- of an illegal selector falls through to the same increment.
  abbrev pub finish : Machine W → ℕ → ℕ → Option ℕ → Outcome (Machine W)
  finish m dest faulting_val none = trap_and_advance m faulting_val
  finish m dest faulting_val (some v) = ok (advance (write m dest v) 4)

  unfoldable pub vcore_r_type : ℕ → Machine W → Outcome (Machine W)
  vcore_r_type ins m =
      finish m (rd ins) ins (r_value (r_func ins) (reg m (rs1 ins)) (reg m (rs2 ins)))

  unfoldable pub vcore_ir_type : ℕ → Machine W → Outcome (Machine W)
  vcore_ir_type ins m =
      finish m (rd ins) 0 (ir_value (r_func ins) (func ins) (reg m (rs1 ins)) (rs2 ins) (i_imm ins))

  abbrev pub branch : Machine W → ℕ → ℕ → Option Bool → Outcome (Machine W)
  branch m ins imm none = trap_and_advance m ins
  branch m ins imm (some taken) = ok (advance m (if taken then imm else 4))

  unfoldable pub vcore_b_type : ℕ → Machine W → Outcome (Machine W)
  vcore_b_type ins m =
      branch m ins (b_imm ins) (b_taken (func ins) (reg m (rs1 ins)) (reg m (rs2 ins)))

  unfoldable pub vcore_il_type : ℕ → Machine W → Outcome (Machine W)
  vcore_il_type ins m =
      let f = func ins in
      let addr = add32 (reg m (rs1 ins)) (i_imm ins) in
      if f == Op.lb
      then (mem_rb m.mem addr >>= λ v. loaded m (rd ins) (extend 0x80 0xFFFFFF00 v))
      else if f == Op.lh
      then (mem_rh m.mem addr >>= λ v. loaded m (rd ins) (extend 0x8000 0xFFFF0000 v))
      else if f == Op.lw
      then (mem_rw m.mem addr >>= λ v. loaded m (rd ins) v)
      else if f == Op.lbu
      then (mem_rb m.mem addr >>= λ v. loaded m (rd ins) v)
      else if f == Op.lhu
      then (mem_rh m.mem addr >>= λ v. loaded m (rd ins) v)
      else trap_and_advance m ins

  unfoldable pub vcore_s_type : ℕ → Machine W → Outcome (Machine W)
  vcore_s_type ins m =
      let f = func ins in
      let addr = add32 (reg m (rs1 ins)) (s_imm ins) in
      let v = reg m (rs2 ins) in
      if f == Op.sb
      then (mem_wb m.mem addr (u8 v) >>= stored m)
      else if f == Op.sh
      then (mem_wh m.mem addr (u16 v) >>= stored m)
      else if f == Op.sw
      then (mem_ww m.mem addr v >>= stored m)
      else trap_and_advance m ins

  abbrev pub amo_or_trap : Machine W → ℕ → Option Fetched → Outcome (Machine W)
  amo_or_trap m ins none = trap_and_advance m ins
  amo_or_trap m ins (some r) = fetched m (rd ins) r

  unfoldable pub vcore_a_type : ℕ → Machine W → Outcome (Machine W)
  vcore_a_type ins m =
      let f = a_func ins in
      let addr = reg m (rs1 ins) in
      let v = reg m (rs2 ins) in
      if f == Op.lr
      then load_reserved m addr
      else if f == Op.sc
      then store_conditional m (rd ins) addr v
      else amo_or_trap m ins (amo f m.mem addr v)
