-- ===== src/Supervisor/Words/Trap.antt =====
-- Traps and interrupts keep words words.
use switch_v.Common.{ℕ, ◌^◌, ◌<◌, arith}
use switch_v.Common.{Bool, true, false, ltb, ◌==◌, update-lt}
use switch_v.Common.Bits.{bit_and-le}
use switch_v.Common.Outcome.{Holds, Holds->>=, Holds-if}
use switch_v.Cpu.Reg
use switch_v.Cpu.State.{VCore, set_reg, Machine}
use switch_v.Cpu.Invariant.{IsCore, set_reg-IsCore}
use switch_v.Supervisor.Csr.{stvec_mode, stvec_base}
use switch_v.Supervisor.World.{World}
use switch_v.Supervisor.Trap.{
  dispatch_trap, trap_core, enter_trap, check_interrupts, trap_if, is_masked, external_pending,
  software_pending, timer_pending, supervisor_external_interrupt, supervisor_software_interrupt,
  supervisor_timer_interrupt,
}
use switch_v.Supervisor.Words.Defs.{Kept}

stvec_base-lt : (x : ℕ) → x < 2 ^ 32 → stvec_base x < 2 ^ 32
unfolding stvec_base
stvec_base-lt x h = omega (arith, bit_and-le 32 x 0xFFFFFFFC h)

trap_core-IsCore :
    (core : VCore) (code v : ℕ)
    → IsCore core
    → code < 2 ^ 32
    → v < 2 ^ 32
    → Holds IsCore (trap_core core code v)
unfolding trap_core
trap_core-IsCore core code v c hc hv =
    Holds-if IsCore (ltb code (2 ^ 31)) _ _
      (set_reg-IsCore _ Reg.pc _ (set_reg-IsCore _ Reg.stval v entered hv)
        (stvec_base-lt _ (entered.word Reg.stvec)))
      (Holds-if IsCore (stvec_mode stvec == 0) _ _
        (set_reg-IsCore _ Reg.pc _ entered (stvec_base-lt stvec (entered.word Reg.stvec)))
        (Holds-if IsCore (stvec_mode stvec == 1) _ _
          (set_reg-IsCore _ Reg.pc _ entered (omega arith)) tt))
  where
    entered : IsCore (enter_trap core code)
    entered =
        set_reg-IsCore (record (set_reg core Reg.scause code) { mode = _ }) Reg.sepc _
          (record {
            word = update-lt core.regs Reg.scause code (2 ^ 32) c.word hc;
            kept = c.kept;
            brk = c.brk;
          })
          (c.word Reg.pc)

    stvec : ℕ
    stvec = (enter_trap core code).regs Reg.stvec

pub dispatch_trap-Kept :
    (code v : ℕ) (m : Machine World)
    → Kept m
    → code < 2 ^ 32
    → v < 2 ^ 32
    → Holds Kept (dispatch_trap code v m)
unfolding dispatch_trap
dispatch_trap-Kept code v m w hc hv =
    Holds->>= IsCore Kept (trap_core m.core code v) _ (trap_core-IsCore m.core code v w.core hc hv)
      (λ core c. record { core = c; bytes = w.bytes; world = w.world })

trap_if-Kept :
    (pending : Bool) (code : ℕ) (m : Machine World)
    → Kept m
    → code < 2 ^ 32
    → Holds Kept (trap_if pending code m)
trap_if-Kept true code m w h = dispatch_trap-Kept code 0 m w h (omega arith)
trap_if-Kept false code m w h = w

pub check_interrupts-Kept : (m : Machine World) → Kept m → Holds Kept (check_interrupts m)
unfolding check_interrupts
check_interrupts-Kept m w = Holds-if Kept m.core.ll_sc_flag _ _ w (
    Holds-if Kept (is_masked m) _ _ w (
      Holds->>= Kept Kept (trap_if (external_pending m) supervisor_external_interrupt m) _
        (trap_if-Kept (external_pending m) _ m w (omega arith))
        (λ m1 w1.
          Holds->>= Kept Kept (trap_if (software_pending m1) supervisor_software_interrupt m1) _
            (trap_if-Kept (software_pending m1) _ m1 w1 (omega arith))
            (λ m2 w2.
              trap_if-Kept (timer_pending m2) supervisor_timer_interrupt m2 w2 (omega arith)))))
