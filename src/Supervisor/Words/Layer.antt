-- ===== src/Supervisor/Words/Layer.antt =====
-- The platform layer of a SUPERVISOR build meets the interface of the instructions.
use switch_v.Common.{ℕ, ◌^◌, ◌<◌, arith}
use switch_v.Common.{Bool, ◌==◌, if◌then◌else◌, List}
use switch_v.Common.Outcome.{Holds, Holds->>=, Holds-if}
use switch_v.Cpu.Reg
use switch_v.Cpu.Op
use switch_v.Cpu.Decode.{func, i_imm}
use switch_v.Cpu.State.{Machine, reg}
use switch_v.Cpu.Run.{vcore_run}
use switch_v.Cpu.Instructions.{ill_ins}
use switch_v.Cpu.Invariant.{
  IsMachine, advance-IsMachine, KeepsWords, vcore_run-IsMachine, machine_of,
}
use switch_v.ThreadsMgr.{threads_mgr_halt_cores}
use switch_v.Supervisor.World.{World}
use switch_v.Supervisor.Trap.{dispatch_trap, is_supervisor}
use switch_v.Supervisor.Sbi.{emu_sbi_call}
use switch_v.Supervisor.Sys.{env_type, vcore_sys_type, supervisor}
use switch_v.Supervisor.Sys.{ecall_u_mode, brkpt}
use switch_v.Supervisor.Words.Defs.{IsWorld, Kept}
use switch_v.Supervisor.Words.Trap.{dispatch_trap-Kept, check_interrupts-Kept}
use switch_v.Supervisor.Words.Csr.{csr_type-Kept}
use switch_v.Supervisor.Words.Sbi.{on_threads-Kept, halt_cores-AllCores, emu_sbi_call-Kept}

env_type-Kept : (ins : ℕ) (m : Machine World) → Kept m → ins < 2 ^ 32 → Holds Kept (env_type ins m)
unfolding env_type
env_type-Kept ins m w h =
    Holds-if Kept (i_imm ins == Op.ecall) _ _
      (Holds->>= Kept Kept
        (if is_supervisor m.core.mode
          then emu_sbi_call m
          else dispatch_trap ecall_u_mode (reg m Reg.pc) m)
        _
        (Holds-if Kept (is_supervisor m.core.mode) _ _ (emu_sbi_call-Kept m w)
          (dispatch_trap-Kept ecall_u_mode (reg m Reg.pc) m w (omega arith) (w.core.word Reg.pc)))
        (λ m' w'. advance-IsMachine IsWorld m' 4 w'))
      (Holds-if Kept (i_imm ins == Op.ebreak) _ _
        (Holds-if Kept m.world.ctx.debug _ _
          (on_threads-Kept m w (threads_mgr_halt_cores m.world.ctx)
            (halt_cores-AllCores m.world.ctx))
          (dispatch_trap-Kept brkpt (reg m Reg.pc) m w (omega arith) (w.core.word Reg.pc)))
        (dispatch_trap-Kept ill_ins ins m w (omega arith) h))

pub supervisor-KeepsWords : KeepsWords IsWorld supervisor
unfolding supervisor vcore_sys_type
supervisor-KeepsWords = record {
  traps = λ code v m w hc hv. dispatch_trap-Kept code v m w hc hv;
  sys_type = λ ins m w h.
      Holds-if Kept (func ins == 0) _ _ (env_type-Kept ins m w h) (csr_type-Kept ins m w h);
  interrupts = λ m w. check_interrupts-Kept m w;
}

-- In a SUPERVISOR build a run of any number of rounds, from well-formed registers and memory and
-- whatever the other threads signal in between, ends in well-formed ones, those of the other cores
-- included, if it does not stop the process.
pub supervisor_run-IsMachine :
    (signals : List Bool) (m : Machine World)
    → IsMachine IsWorld m
    → Holds (λ r. IsMachine IsWorld (machine_of r)) (vcore_run supervisor signals m)
supervisor_run-IsMachine signals m w =
    vcore_run-IsMachine IsWorld supervisor supervisor-KeepsWords signals m w
