-- ===== src/Main/Runs.antt =====
-- From the command line to the runs of the cores: `main` of src/main.c in a SUPERVISOR build with no
-- debugger.
use switch_v.Common.{ℕ, ◌+◌, ◌≡◌, refl, Bool, false, List, update, inl, inr, arith}
use switch_v.Common.{Bool-cases, ◌==◌}
use switch_v.Common.Outcome.{ok, Holds, Holds_elim}
use switch_v.Memory.{page_size}
use switch_v.Cpu.Reg
use switch_v.Cpu.State.{Machine}
use switch_v.Cpu.Run.{vcore_init, vcore_run}
use switch_v.Cpu.Invariant.{IsCore, IsMachine, machine_of}
use switch_v.Cthread.{Cthread, start_s, continue_pending}
use switch_v.Cthread.Fsm.{resumed, continue_lem}
use switch_v.Supervisor.World.{World}
use switch_v.Supervisor.Sys.{supervisor}
use switch_v.Supervisor.Words.{IsWorld, supervisor_run-IsMachine}
use switch_v.User.Host.{Host}
use switch_v.Main.{Booted, Env, ctx_of, setup, start, main}
use switch_v.Main.Boot.{IsEnv, IsBooted, setup-IsBooted}

-- The machine in which a core of a SUPERVISOR build runs: its registers, the memory, and what it
-- shares with the others.
abbrev pub machine_at : {H : Type 0} → Booted H → ℕ → Machine World
machine_at b i = record {
  core = (b.cthreads i).core;
  mem = b.mem;
  world = record { ctx = ctx_of b.args; self = i; cthreads = b.cthreads };
}

-- Core 0 has been told to run.
abbrev pub started_at_0 : {H : Type 0} → Booted H → Booted H
started_at_0 b = record b { cthreads = update b.cthreads 0 (resumed (b.cthreads 0)) }

resumed-IsCore : (t : Cthread) → IsCore t.core → IsCore (resumed t).core
resumed-IsCore t c = record { word = c.word; kept = c.kept; brk = c.brk }

module _ {H : Type 0} (env : Env H) (w : IsEnv env) (host : Host H) where
  pub start_lem :
      (is_user : Bool) (b : Booted H)
      → IsBooted is_user env b
      → b.args.debug ≡ false
      → start env b ≡ ok (started_at_0 b)
  unfolding start
  start_lem is_user b booted debug =
      let ready = booted.threads.first in
      simp (debug, continue_lem (b.cthreads 0) (rw ready refl) (rw ready refl))

  pub started-IsCore :
      (is_user : Bool) (b : Booted H)
      → IsBooted is_user env b
      → (i : ℕ) → IsCore ((started_at_0 b).cthreads i).core
  started-IsCore is_user b booted i = elim (Bool-cases (i == 0)) [
    | inl e ↦ rw e (resumed-IsCore (b.cthreads 0) (booted.words 0))
    | inr e ↦ rw e (booted.words i)
  ]

  stack_lem :
      (is_user : Bool) (b : Booted H)
      → IsBooted is_user env b
      → (b.cthreads 0).core.regs Reg.sp + page_size ≡ b.mem.size
  unfolding vcore_init
  stack_lem is_user b booted =
      rw booted.threads.first
        (omega (arith, booted.loaded.sp, booted.limits.stack, booted.memory.0))

  -- In a SUPERVISOR build with no debugger, where the command line, the program and the files let
  -- `main` come as far as the threads, it comes to its end: core 0 is to go on with START, its exit
  -- flag is clear, its stack pointer is the base of the stack, one page below the end of the memory;
  -- and any run of any core, from the registers and the memory that `main` leaves, with any signals
  -- of other threads, leads to words and bytes, if it does not stop the process. (Of `core0_init`,
  -- of the memory for the threads and of the files it takes only that they hold words and bytes.)
  pub main-vcore_run :
      (h : H) (b : Booted H) (i : ℕ) (signals : List Bool)
      → setup env host false h ≡ ok b
      → b.args.debug ≡ false
      → (b' : Booted H) × (main env host false h ≡ ok b')
        × ((b'.cthreads 0).state ≡ continue_pending)
        × ((b'.cthreads 0).signal ≡ start_s)
        × ((b'.cthreads 0).core.atomic_exit_loop ≡ false)
        × ((b'.cthreads 0).core.regs Reg.sp + page_size ≡ b'.mem.size)
        × Holds
            (λ r. IsMachine IsWorld (machine_of r))
            (vcore_run supervisor signals (machine_at b' i))
  unfolding main
  main-vcore_run h b i signals ran debug =
      let booted = Holds_elim (IsBooted false env) _ b (setup-IsBooted env w host false h) ran in
      let ready = booted.threads.first in
      let words = started-IsCore false b booted in
      (
        started_at_0 b,
        rw ran (start_lem false b booted debug),
        refl,
        rw ready refl,
        rw ready refl,
        stack_lem false b booted,
        supervisor_run-IsMachine signals (machine_at (started_at_0 b) i)
            (record { core = words i; bytes = booted.memory.1; world = record { cores = words } }),
      )
