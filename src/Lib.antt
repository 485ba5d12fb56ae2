-- ===== src/Lib.antt =====
-- Switch-V32 is an emulator of a 32-bit RISC-V machine: cores that each run in a thread of the host,
-- one memory that they share, and a platform layer that is either the system calls of a Linux program
-- (USER builds) or a small supervisor machine with traps, CSRs, SBI calls and page tables (SUPERVISOR
-- builds). This library models the parts of the emulator that decide what a guest program computes.
--
-- Files, and the code that each is about (paths from the root of the repository's sources, src/):
--
--   Common            helpers: tests, machine words, integers, bits, and outcomes that may stop
--   Memory            memory.c and memory.h: the mapping `vmem`, loads, stores and AMOs
--   Cpu.Decode        the decoder macros of cpu.c and cpu.h; Decode.Encoding has the formats of the
--                     manual as encoders
--   Cpu.Op, Cpu.Reg   opcodes, selectors and register indices
--   Cpu.State         `VCore`, and the platform layer as an interface, `Platform`
--   Cpu.Alu           what `vcore_r_type`, `vcore_ir_type` and `vcore_b_type` compute
--   Cpu.Instructions  one function for each `vcore_*_type` of cpu.c
--   Cpu.Run           `vcore_init` and the loop of `vcore_run`
--   Cpu.Invariant     the loop keeps words words, for any platform layer that does
--   Cpu.Round         one round of the loop, from the word in memory to the state after it
--   Cpu.Isa           the instructions of the manual, with no reference to cpu.c; Isa.Results and
--                     Isa.Hart have what each does to a hart, Isa.Values, Isa.Transfers, Isa.Accesses
--                     and Isa.Atomics why a round of cpu.c does the same, Isa.Refines the
--                     refinement, and Isa.Programs that of whole runs
--   Cthread           cthread.c and cthread.h: the signals of a core's thread; Cthread.Fsm has them in
--                     sequence
--   Cthread.Thread    `cthread_fsm` and `cthread_signal_step`, cut where they give up the mutex, and
--                     the relation of what may happen next to a core's thread and the debugger;
--                     Thread.HotLoop and Thread.Stepping have its histories
--   ThreadsMgr        threads_mgr2.c: operations on all cores; ThreadsMgr.Init has the threads at the start
--   Supervisor.Csr    supervisor/csr.h
--   Supervisor.World  what a core shares with the others: the context and the array of threads
--   Supervisor.Trap   supervisor/trap.c: `dispatch_trap` and `check_interrupts`
--   Supervisor.Sys    supervisor/cpu_supervisor.c: `vcore_sys_type`, and the `Platform` of the build
--   Supervisor.Sbi    supervisor/sbi.c: `emu_sbi_call`; Sbi.Laws and Sbi.Status have its calls, and
--                     Sbi.Stop the way of HART_STOP from the instruction to the thread that waits
--   Supervisor.Vm     supervisor/vm.c: `vm_tree_walk`; Vm.Grants has the entries that it comes to
--   Supervisor.Programs  runs of SUPERVISOR builds against the steps of the manual
--   Supervisor.Words  the SUPERVISOR layer keeps words words, those of the other cores included
--   User.Host         the system calls of the host, as an interface, and the state of USER builds
--   User.Stat         the structures that user/emu.c copies
--   User.Emu          user/emu.c: one function for each system call, and `emu_system_call`
--   User.Std          user/emu.c: `emu_std`
--   User.Args         user/emu.c: `emu_args`; Args.Split has the texts that it finds, Args.Laid
--                     what its loop leaves in memory, Args.Fits the page when they fit, Args.Kept
--                     that bytes stay bytes
--   User.Sys          user/trap.c and user/cpu_user.c, and the `Platform` of the build
--   User.Laws         the calls for the time and for memory
--   User.Programs     runs of USER builds against the steps of the manual
--   User.Words        the USER layer keeps words words, and the descriptors of the emulator
--   Sdl               sdl.c and sdl.h; Sdl.Frame has the picture, Sdl.Events and
--                     Sdl.Ring the ring of events
--   Elf               loader.c: the file and its structures; Elf.Header has the checks of the header,
--                     and Elf.Names the search by name
--   Loader            loader.c: the segments and the first core; Loader.Segments and
--                     Loader.Binary have what is loaded, Loader.Words what the loader keeps
--   Args              args.c, the limits of defs.h and the defaults of main.c; Args.Limits
--   Debug             debug.c: the callbacks of the GDB stub
--   Main              main.c: the order of all of these; Main.Boot has the state that it sets up,
--                     Main.Runs the runs of the cores from there, and Main.Binary the way of a flat
--                     binary from the command line to its first instruction
--   Tests             concrete machines and the theorems at them
--
-- A function of the program that may end the process gives an `Outcome`: a value, or the way the
-- process stops (`exit`, an assertion, a loop without end), or `undefined`, where C says nothing of what
-- follows (an access outside of a mapping or an object, which the program does not test): of that the
-- model says no more than that it is reached. State that the program changes in place is passed and
-- given back: a `Machine` is the core that runs, the memory, and the state of the platform layer.
-- Registers are natural numbers below 2 ^ 32 (Words says
-- that they stay so), and each operation that wraps around says `% 2 ^ 32`.
--
-- Bounds: `vcore_run` has no end of its own, so it takes a list with one entry for each round, which
-- says whether another thread has set the exit flag by then; every finite run is one of these. The
-- loop of `mem_cas` is run with a number of attempts, and two are enough. The walk of a page table has
-- two levels, as in the code. The loops over headers, symbols, arguments, pixels and events are over
-- their counts or lists, and always end. A path that a guest opens is read as far as the memory goes.
--
-- The host, the SDL library, the GDB stub, `getopt` and the mapping of a program's file are parameters:
-- what they answer is an argument of the definitions, and a theorem that relies on it says so. A wait
-- of a thread on a condition may end at any time, as POSIX allows, and the operations that hold a mutex
-- are single steps, so a history of `Cthread.Thread.Move` is any interleaving of them.
--
-- Not modelled: the creation of the system's threads, and the last loop of `main`, which does nothing;
-- printing and logging; calls of SDL that only draw or destroy; unmapping the program's file; the GDB
-- stub of include/stubb_a_dub, which is a library of its own. Accesses of
-- several cores to the memory are one after the other here, in any order that a caller chooses, so
-- weak memory orders are not seen.
-- A result that no hardware fixes, such as an addition that overflows an `int` or the `int64_t` of a
-- time, wraps around.
pub mod Common
pub mod Memory
pub mod Cpu
pub mod Cthread
pub mod ThreadsMgr
pub mod Supervisor
pub mod Sdl
pub mod User
pub mod Elf
pub mod Loader
pub mod Args
pub mod Debug
pub mod Main
pub mod Tests
