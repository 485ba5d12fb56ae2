-- ===== src/Tests/Isa.antt =====
-- Programs of the manual's instructions on concrete machines.
use switch_v.Common.{◌≡◌, refl, arith, ltb}
use switch_v.Common.Outcome.{ok, ◌>>=◌}
use switch_v.Memory.{Memory, mem_rw}
use switch_v.Memory.Laws.{with_word, mem_rw-with_word}
use switch_v.Cpu.Reg
use switch_v.Common.{◌≡◌}
use switch_v.Cpu.State.{Machine}
use switch_v.Cpu.Run.{iterate, vcore_run, running}
use switch_v.Cpu.Invariant.{IsMachine}
use switch_v.Cpu.Isa
use switch_v.Cpu.Isa.{Instr, encode}
use switch_v.Cpu.Isa.Hart.{Hart, step, hart_of, observe, next, set_gpr, go_to}
use switch_v.Cpu.Isa.Refines.{iterate-step}
use switch_v.Cpu.Isa.Atomics.{iterate-amoor}
use switch_v.Cpu.Instructions.{advance, ill_ins}
use switch_v.Cpu.Round.{reset}
use switch_v.Cpu.Isa.Programs.{halts, steps, undisturbed}
use switch_v.Supervisor.Sys.{supervisor}
use switch_v.Supervisor.World.{World}
use switch_v.Supervisor.Words.{IsWorld}
use switch_v.User.Host.{UserWorld}
use switch_v.User.Words.{IsUserWorld}
use switch_v.Supervisor.Csr.{sstatus_sie}
use switch_v.Supervisor.Programs.{supervisor_run-Steps}
use switch_v.Tests.Data.{
  blank, core_with, three_regs, machine, machine-IsMachine, cleared-IsCore, two_cores,
}
use switch_v.Tests.Display.{window}
use switch_v.Tests.User.{Files, Streams}

-- LH x4, -2(x3): half a word below 40, in memory that holds zeros there.
abbrev lh_below : Instr
lh_below = Isa.load Isa.lh 4 3 4094

iterate-step_example :
    observe (iterate supervisor (machine three_regs (encode lh_below)))
    ≡ step lh_below (hart_of (machine three_regs (encode lh_below)))
iterate-step_example =
    iterate-step IsWorld supervisor (machine three_regs (encode lh_below)) lh_below
      (machine-IsMachine (encode lh_below)) (omega arith, omega arith, omega arith) tt
      (mem_rw-with_word blank 0 (encode lh_below) (omega arith) (omega arith))

-- ADDI x1, x1, 5, then JAL x0, -4.
abbrev adds_five : Instr
adds_five = Isa.alu_imm Isa.addi 1 1 5

abbrev goes_back : Instr
goes_back = Isa.jal 0 2097148

abbrev loop : Memory
loop = with_word (with_word blank 0 (encode adds_five)) 4 (encode goes_back)

abbrev looper : Machine (UserWorld Files)
looper = record {
  core = core_with three_regs;
  mem = loop;
  world = record { shared = two_cores; brk_limit = 32; display = window; host = λ n. ltb n 3 };
}

looper-IsMachine : IsMachine (IsUserWorld Streams) looper
looper-IsMachine = record {
  core = record { word = λ i. ground arith; kept = ground arith; brk = ground arith };
  bytes = record { byte = λ a. ground arith };
  world = record { shared = record { cores = λ i. cleared-IsCore }; own = λ n l. refl };
}

abbrev added : Hart (UserWorld Files)
added = next (set_gpr (hart_of looper) 1 105)

abbrev back : Hart (UserWorld Files)
back = go_to (set_gpr added 0 8) 0

-- AMOOR.W.AQRL x4, x2, (x3).
abbrev ors : Instr
ors = Isa.amo Isa.amoor 3 4 3 2

iterate-amoor_example : iterate supervisor (machine three_regs (encode ors)) ≡ (
    supervisor.dispatch_trap ill_ins (encode ors) (reset (machine three_regs (encode ors)))
    >>= λ m'. ok (advance m' 4))
iterate-amoor_example =
    iterate-amoor supervisor (machine three_regs (encode ors)) 3 4 3 2 (omega arith) (omega arith)
      (omega arith) (omega arith)
      (mem_rw-with_word blank 0 (encode ors) (omega arith) (omega arith))

-- The same program on a SUPERVISOR build, in supervisor mode with interrupts off.
abbrev super : Machine World
super = record { core = core_with three_regs; mem = loop; world = two_cores }

super-IsMachine : IsMachine IsWorld super
super-IsMachine = record {
  core = record { word = λ i. ground arith; kept = ground arith; brk = ground arith };
  bytes = looper-IsMachine.bytes;
  world = record { cores = λ i. cleared-IsCore };
}

abbrev super_added : Hart World
super_added = next (set_gpr (hart_of super) 1 105)

abbrev super_back : Hart World
super_back = go_to (set_gpr super_added 0 8) 0

supervisor_run-Steps_example :
    (m' : Machine World) × (vcore_run supervisor (undisturbed 2) super ≡ ok (running m'))
    × (hart_of m' ≡ super_back)
    × IsMachine IsWorld m'
unfolding mem_rw sstatus_sie
supervisor_run-Steps_example = supervisor_run-Steps 2 super super_back super-IsMachine refl refl (
    steps 1 (hart_of super) super_added super_back adds_five (omega arith, omega arith, omega arith)
      tt refl refl
      (steps 0 super_added super_back super_back goes_back (omega arith, omega arith, refl) refl
        refl refl (halts super_back)))

-- JAL x1, 2.
abbrev jumps_between : Instr
jumps_between = Isa.jal 1 2
