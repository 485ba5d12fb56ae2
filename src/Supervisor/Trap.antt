-- ===== src/Supervisor/Trap.antt =====
-- Traps and interrupts, src/supervisor/trap.c.
use switch_v.Common.{ℕ, ◌*◌, ◌^◌, bit_and, Bool, true, false, not, ◌&&◌, ltb, ◌==◌, if◌then◌else◌}
use switch_v.Common.Word.{add32, u32}
use switch_v.Common.Outcome.{Outcome, ok, stop, aborts, ◌>>=◌}
use switch_v.Cpu.Reg
use switch_v.Cpu.State.{
  VCore, set_reg, Machine, reg, write, ExecutionMode, supervisor_mode, user_mode,
}
use switch_v.Supervisor.Csr.{
  sstatus_sie, stvec_mode, stvec_base, sip_ssip, sip_stip, sip_seip, sie_ssie, sie_stie, sie_seie,
}
pub mod Laws

abbrev pub supervisor_software_interrupt : ℕ
supervisor_software_interrupt = 0x80000001

abbrev pub supervisor_timer_interrupt : ℕ
supervisor_timer_interrupt = 0x80000005

abbrev pub supervisor_external_interrupt : ℕ
supervisor_external_interrupt = 0x80000009

-- `GET_INTERRUPT_CODE`.
unfoldable pub interrupt_code : ℕ → ℕ
interrupt_code code = bit_and code 0x7FFFFFFF

-- The registers that a trap writes before the new program counter. The code computes the new SSTATUS
-- and drops it, so that register is not among them.
abbrev pub enter_trap : VCore → ℕ → VCore
enter_trap core code =
    let caused = record (set_reg core Reg.scause code) { mode = supervisor_mode } in
    set_reg caused Reg.sepc (caused.regs Reg.pc)

-- The vector of an interrupt, by the mode of STVEC.
abbrev pub interrupt_target : VCore → ℕ → Outcome VCore
interrupt_target core code =
    let stvec = core.regs Reg.stvec in
    if stvec_mode stvec == 0
    then ok (set_reg core Reg.pc (stvec_base stvec))
    else if stvec_mode stvec == 1
    then ok (set_reg core Reg.pc (add32 (stvec_base stvec) (u32 (interrupt_code code * 4))))
    else stop aborts

-- `(int) code >= 0` tells the exceptions from the interrupts.
unfoldable pub trap_core : VCore → ℕ → ℕ → Outcome VCore
trap_core core code faulting_val =
    let entered = enter_trap core code in
    if ltb code (2 ^ 31)
    then ok (
        set_reg (set_reg entered Reg.stval faulting_val) Reg.pc
          (stvec_base (entered.regs Reg.stvec)))
    else interrupt_target entered code

unfoldable pub dispatch_trap : {W : Type 0} → ℕ → ℕ → Machine W → Outcome (Machine W)
unfolding trap_core
dispatch_trap code faulting_val m =
    trap_core m.core code faulting_val >>= λ core. ok (record m { core = core })

abbrev pub is_supervisor : ExecutionMode → Bool
is_supervisor supervisor_mode = true
is_supervisor user_mode = false

abbrev pub trap_if : {W : Type 0} → Bool → ℕ → Machine W → Outcome (Machine W)
trap_if pending code m = if pending then dispatch_trap code 0 m else ok m

-- In supervisor mode the SIE bit of SSTATUS masks every interrupt.
abbrev pub is_masked : {W : Type 0} → Machine W → Bool
is_masked m = is_supervisor m.core.mode && not (sstatus_sie (reg m Reg.sstatus))

-- An interrupt that is enabled in SIE and pending in SIP.
abbrev pub external_pending : {W : Type 0} → Machine W → Bool
external_pending m = sie_seie (reg m Reg.sie) && sip_seip (reg m Reg.sip)

abbrev pub software_pending : {W : Type 0} → Machine W → Bool
software_pending m = sie_ssie (reg m Reg.sie) && sip_ssip (reg m Reg.sip)

abbrev pub timer_pending : {W : Type 0} → Machine W → Bool
timer_pending m = sie_stie (reg m Reg.sie) && sip_stip (reg m Reg.sip)

-- The three sources are looked at one after the other, each in the registers that the one before
-- has left.
unfoldable pub check_interrupts : {W : Type 0} → Machine W → Outcome (Machine W)
check_interrupts m =
    if m.core.ll_sc_flag
    then ok m
    else if is_masked m
    then ok m
    else (trap_if (external_pending m) supervisor_external_interrupt m >>= λ m1.
        trap_if (software_pending m1) supervisor_software_interrupt m1 >>= λ m2.
        trap_if (timer_pending m2) supervisor_timer_interrupt m2)
