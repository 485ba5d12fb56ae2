-- ===== src/Supervisor/Programs.antt =====
-- Programs on a SUPERVISOR build (src/supervisor): the runs of `vcore_run`, with its tests for
-- interrupts, against the steps that the RISC-V manual allows.
use switch_v.Common.{ℕ, ◌≡◌, refl, Bool, true, false, not, ◌&&◌, ◌||◌, arith}
use switch_v.Common.Outcome.{ok}
use switch_v.Cpu.Reg
use switch_v.Cpu.State.{VCore, Machine}
use switch_v.Cpu.Run.{running, vcore_run}
use switch_v.Cpu.Invariant.{IsMachine}
use switch_v.Cpu.Isa.Hart.{Hart, hart_of}
use switch_v.Cpu.Isa.Programs.{Steps, undisturbed, vcore_run-Steps}
use switch_v.Supervisor.Csr.{
  sstatus_sie, sie_seie, sie_ssie, sie_stie, sip_seip, sip_ssip, sip_stip,
}
use switch_v.Supervisor.Trap.{is_supervisor, check_interrupts}
use switch_v.Supervisor.World.{World}
use switch_v.Supervisor.Sys.{supervisor}
use switch_v.Supervisor.Words.{IsWorld, supervisor-KeepsWords}

-- No source is both enabled and pending.
abbrev none_pending : (ℕ → ℕ) → Bool
none_pending csr =
    not (sie_seie (csr Reg.sie) && sip_seip (csr Reg.sip))
    && not (sie_ssie (csr Reg.sie) && sip_ssip (csr Reg.sip))
    && not (sie_stie (csr Reg.sie) && sip_stip (csr Reg.sip))

-- A core is between LR and SC, or in supervisor mode with interrupts off, or has none pending.
abbrev pub IsCalm : (ℕ → ℕ) → VCore → Type 0
IsCalm csr other =
    other.ll_sc_flag
      || is_supervisor other.mode && not (sstatus_sie (csr Reg.sstatus))
      || none_pending csr
    ≡ true

check_interrupts-IsCalm :
    (m : Machine World) → IsCalm (hart_of m).csr (hart_of m).other → check_interrupts m ≡ ok m
unfolding check_interrupts
check_interrupts-IsCalm m calm = ground arith

-- In a SUPERVISOR build, a core in a well-formed state, with its exit flag clear, with no signal from
-- another thread, and with no interrupt that is both pending and let through (it is between LR and
-- SC, or in supervisor mode with interrupts off, or no source is enabled and pending), runs for as
-- many rounds whatever steps the RISC-V manual allows from its hart (each step an instruction of
-- RV32I or M or an AMO that is in memory at the program counter then and raises no misaligned
-- exception, no fence, system instruction, LR, SC or AMOOR; an indirect jump only with a link
-- register that is not its base): the process goes on, the core is still running, in a well-formed
-- state, and its hart is where the steps lead.
pub supervisor_run-Steps :
    (n : ℕ) (m : Machine World) (h : Hart World)
    → IsMachine IsWorld m
    → m.core.atomic_exit_loop ≡ false
    → IsCalm (hart_of m).csr (hart_of m).other
    → Steps n (hart_of m) h
    → (m' : Machine World) × (vcore_run supervisor (undisturbed n) m ≡ ok (running m'))
      × (hart_of m' ≡ h)
      × IsMachine IsWorld m'
unfolding supervisor
supervisor_run-Steps n m h w flag calm run =
    vcore_run-Steps IsWorld supervisor supervisor-KeepsWords IsCalm check_interrupts-IsCalm n m
      (hart_of m) h w flag refl calm run
