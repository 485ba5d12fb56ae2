-- ===== src/Supervisor/Sys/Laws.antt =====
-- What a system instruction of src/supervisor/cpu_supervisor.c leaves, and what an illegal
-- instruction does in a SUPERVISOR build.
use switch_v.Common.{ℕ, ◌*◌, ◌/◌, ◌^◌, ◌≤◌, ◌<◌, ◌≡◌, ◌≢◌, ap, ◌∙◌, arith, bit_and}
use switch_v.Common.{true, false, none, some, ◌==◌}
use switch_v.Common.Word.{add32}
use switch_v.Common.Outcome.{ok}
use switch_v.Cpu.Reg
use switch_v.Cpu.Alu.{r_value}
use switch_v.Cpu.Decode.{rd, rs1, rs2, func, r_func, i_imm}
use switch_v.Cpu.Decode.Fields.{rd_lem}
use switch_v.Cpu.State.{set_reg, Machine, reg, supervisor_mode}
use switch_v.Cpu.Instructions.{ill_ins, advance, vcore_r_type}
use switch_v.Supervisor.World.{World}
use switch_v.Supervisor.Trap.{is_supervisor}
use switch_v.Supervisor.Trap.Laws.{dispatch_trap-exception}
use switch_v.Supervisor.Sys.{
  find_csr, read_only_refused, writable, csr_value, with_csr, csr_instruction, csr_type,
  vcore_sys_type, supervisor, stvec_addr,
}

-- The registers of the supervisor CSRs stand after the program counter.
find_csr-above : (a csr : ℕ) → find_csr a ≡ some csr → (Reg.pc < csr) × (csr < Reg.reg_nums)
unfolding find_csr
find_csr-above a csr h = ground arith

-- No selector of an instruction is taken for one of a read-only register.
not-read_only_refused :
    (f csr_addr rs1_idx rs1_val : ℕ) → f < 8 → read_only_refused f csr_addr rs1_idx rs1_val ≡ false
unfolding read_only_refused
not-read_only_refused f csr_addr rs1_idx rs1_val h = ground arith

csr_value-csrrw : (f old val imm : ℕ) → f ≡ 1 → csr_value f old val imm ≡ some val
unfolding csr_value
csr_value-csrrw f old val imm h = ground arith

csr_value-lost : (f old val imm : ℕ) → 2 ≤ f → f < 8 → csr_value f old val imm ≡ none
unfolding csr_value
csr_value-lost f old val imm low high = ground arith

module _ (ins csr : ℕ) (m : Machine World) (level : bit_and (i_imm ins) 0x300 ≡ 0x100)
    (known : find_csr (i_imm ins) ≡ some csr) (mode : m.core.mode ≡ supervisor_mode) where
  -- A CSR instruction of the supervisor level gets to its register.
  reaches : func ins ≢ 0 → func ins < 8 → vcore_sys_type ins m ≡ ok (with_csr ins (i_imm ins) m csr)
  unfolding vcore_sys_type csr_type csr_instruction
  reaches nonzero high =
      let other : (func ins == 0) ≡ false = ground arith in
      let super : is_supervisor m.core.mode ≡ true = ap is_supervisor mode in
      rw (
        other,
        level,
        super,
        known,
        not-read_only_refused (func ins) (i_imm ins) (rs1 ins) (reg m (rs1 ins)) high,
      )

  module _ (untouched : i_imm ins ≢ stvec_addr) where
    apart : (i_imm ins == stvec_addr) ≡ false
    apart = ground arith

    -- CSRRW on a supervisor CSR other than STVEC, in supervisor mode, gives the old value of the
    -- CSR and writes those bits of the operand that the CSR lets be written; it leaves the program
    -- counter where it is, so it is executed again.
    pub vcore_sys_type-csrrw :
        func ins ≡ 1
        → (m' : Machine World) × (vcore_sys_type ins m ≡ ok m')
          × (reg m' (rd ins) ≡ reg m csr)
          × (reg m' csr ≡ writable (i_imm ins) (reg m (rs1 ins)))
          × (reg m' Reg.pc ≡ reg m Reg.pc)
    vcore_sys_type-csrrw f =
        let above = find_csr-above (i_imm ins) csr known in
        let v = writable (i_imm ins) (reg m (rs1 ins)) in
        (
          record m { core = set_reg (set_reg m.core (rd ins) (reg m csr)) csr v },
          reaches (omega arith) (omega arith)
              ∙ rw (
                apart,
                csr_value-csrrw (func ins) (reg m csr) v (writable (i_imm ins) (rs1 ins)) f,
              ),
          ground (arith, rd_lem ins),
          ground arith,
          ground (arith, rd_lem ins),
        )

    -- Any other CSR instruction, of a selector from 2 to 7, does nothing to a supervisor CSR other
    -- than STVEC in supervisor mode: the whole state is as it was, the program counter included.
    pub vcore_sys_type-csr_lost : 2 ≤ func ins → func ins < 8 → vcore_sys_type ins m ≡ ok m
    vcore_sys_type-csr_lost low high =
        reaches (omega arith) high
        ∙ rw (
          apart,
          csr_value-lost (func ins) (reg m csr) (writable (i_imm ins) (reg m (rs1 ins)))
              (writable (i_imm ins) (rs1 ins)) low high,
        )

-- An instruction of the register format whose selector is not known traps, but the program counter
-- is then moved past the first instruction of the handler.
pub vcore_r_type-ill_ins :
    (ins : ℕ) (m : Machine World)
    → r_value (r_func ins) (reg m (rs1 ins)) (reg m (rs2 ins)) ≡ none
    → reg m Reg.stvec < 2 ^ 32
    → (m' : Machine World) × (vcore_r_type supervisor ins m ≡ ok m')
      × (reg m' Reg.scause ≡ ill_ins)
      × (reg m' Reg.stval ≡ ins)
      × (reg m' Reg.sepc ≡ reg m Reg.pc)
      × (reg m' Reg.pc ≡ add32 (reg m Reg.stvec / 4 * 4) 4)
unfolding vcore_r_type supervisor
vcore_r_type-ill_ins ins m unknown hs =
    let t = dispatch_trap-exception ill_ins ins m (omega arith) hs in
    (advance t.0 4, rw (unknown, t.1), t.2.cause, t.3, t.2.interrupted, rw t.4)
