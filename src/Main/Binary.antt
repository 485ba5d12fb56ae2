-- ===== src/Main/Binary.antt =====
-- The boot of a flat binary, from the command line to the first instruction: `main` of src/main.c in
-- a SUPERVISOR build with no debugger.
use switch_v.Common.{ℕ, ◌+◌, ◌*◌, ◌%◌, ◌^◌, ◌≤◌, ◌<◌, ◌≡◌, refl, ap, ◌∙◌, arith}
use switch_v.Common.{true, false, some}
use switch_v.Common.Bits.{bit_and_low}
use switch_v.Common.Outcome.{ok, Holds_elim}
use switch_v.Memory.{Memory, page_size, mem_init, mem_rw}
use switch_v.Cpu.Reg
use switch_v.Cpu.Run.{VCoreInit, vcore_init, iterate}
use switch_v.Cpu.Isa.{Instr, encode, IsInstr}
use switch_v.Cpu.Isa.Hart.{step, hart_of, observe}
use switch_v.Cpu.Isa.Refines.{IsDirect, direct-IsAligned, iterate-step}
use switch_v.Cthread.{start_s}
use switch_v.ThreadsMgr.Init.{halted_thread, AreThreads, threads_mgr_init-ok}
use switch_v.Supervisor.Sys.{supervisor}
use switch_v.Supervisor.Words.{IsWorld}
use switch_v.User.Host.{Host}
use switch_v.Loader.Binary.{file_of, with_file, ld_bin_lem}
use switch_v.Args.{ArgsContext, ctx_init}
use switch_v.Main.{Booted, Env, ctx_of, load, with_sp, setup, main}
use switch_v.Main.Boot.{IsEnv, IsBooted, setup-IsBooted}
use switch_v.Main.Runs.{machine_at, started_at_0, start_lem, started-IsCore}

-- A command line that the options make, for a flat binary and with no debugger; memory at the start
-- of a page, with room for the file; and memory and condition variables for the threads.
pub record IsBinary {H : Type 0} (env : Env H) (args : ArgsContext) (n : ℕ) (bytes : ℕ → ℕ)
    : Type 0 where
  pub options : ctx_init false env.options ≡ ok args
  pub binary : args.binary ≡ true
  pub no_debug : args.debug ≡ false
  pub vmem : ℕ
  pub mapped : env.vmem ≡ some vmem
  pub page : vmem % page_size ≡ 0
  pub file : env.files args.elf_name ≡ file_of n bytes
  pub some_bytes : 0 < n
  pub fits : n ≤ args.memory_size
  pub threads : env.threads_allocated ≡ true
  pub conds : env.conds ≡ true

abbrev pub zeros : ℕ → Memory
zeros n = record { size = n; cell = λ _. 0 }

mem_init_lem : (vmem size : ℕ) → vmem % page_size ≡ 0 → mem_init (some vmem) size ≡ ok (zeros size)
unfolding mem_init
mem_init_lem vmem size h = ground (arith, bit_and_low 12 vmem)

-- The first word of a memory that holds a file.
first_word :
    (size n : ℕ) (bytes : ℕ → ℕ)
    → 4 ≤ n
    → n ≤ size
    → ((j : ℕ) → bytes j < 2 ^ 8)
    → mem_rw (with_file (zeros size) n bytes) 0
      ≡ ok (bytes 0 + bytes 1 * 2 ^ 8 + bytes 2 * 2 ^ 16 + bytes 3 * 2 ^ 24)
unfolding mem_rw
first_word size n bytes long fits small = ground (arith, small 0, small 1, small 2, small 3)

module _ {H : Type 0} (env : Env H) (host : Host H) (args : ArgsContext) (n : ℕ) (bytes : ℕ → ℕ)
    (is : IsBinary env args n bytes) where
  -- The configuration of core 0.
  abbrev pub from_0 : VCoreInit
  from_0 = record (with_sp env args) { pc = 0 }

  load_lem :
      load env false args (with_sp env args) (zeros args.memory_size)
      ≡ ok (from_0, with_file (zeros args.memory_size) n bytes)
  unfolding load
  load_lem =
      rw (is.binary, is.file)
        (ld_bin_lem n bytes (with_sp env args) (zeros args.memory_size) is.some_bytes is.fits)

  -- `main` comes as far as the threads.
  pub setup-binary :
      (h : H)
      → (b : Booted H) × (setup env host false h ≡ ok b)
        × (b.args ≡ args)
        × (b.mem ≡ with_file (zeros args.memory_size) n bytes)
        × (b.cthreads 0 ≡ halted_thread start_s from_0)
  unfolding setup load
  setup-binary h =
      let made = threads_mgr_init-ok env.fresh (ctx_of args) from_0 in
      let memory = with_file (zeros args.memory_size) n bytes in
      let all : AreThreads (ctx_of args) from_0 env.fresh made.0 = made.2 in
      (
        record { args = args; mem = memory; cthreads = made.0; host = h },
        rw (
          is.options,
          is.mapped,
          mem_init_lem is.vmem args.memory_size is.page,
          load_lem,
          is.threads,
          is.conds,
          made.1,
        ),
        refl,
        refl,
        all.first,
      )

  -- In a SUPERVISOR build with no debugger that is given a flat binary (that can be opened and fits
  -- the memory, with `mmap` and `malloc` successful) is of at least 4 bytes, the first
  -- word an instruction of RV32I or M (no fence, system instruction, atomic instruction or indirect
  -- jump, and a branch or jump only by a multiple of 4), `main` comes to its end, and the first
  -- round of core 0 after it does what the manual says that this instruction does to a hart with the
  -- program counter 0, the stack pointer at the base of the stack, and a memory that holds the file
  -- and zeros after it.
  pub main-first_step :
      (w : IsEnv env) (h : H) (i : Instr)
      → 4 ≤ n
      → ((j : ℕ) → bytes j < 2 ^ 8)
      → bytes 0 + bytes 1 * 2 ^ 8 + bytes 2 * 2 ^ 16 + bytes 3 * 2 ^ 24 ≡ encode i
      → IsInstr i
      → IsDirect i
      → (b : Booted H) × (main env host false h ≡ ok b)
        × (observe (iterate supervisor (machine_at b 0)) ≡ step i (hart_of (machine_at b 0)))
        × ((hart_of (machine_at b 0)).pc ≡ 0)
        × ((hart_of (machine_at b 0)).gpr Reg.sp ≡ args.stack_base)
        × (b.mem ≡ with_file (zeros args.memory_size) n bytes)
  unfolding main vcore_init
  main-first_step w h i long small word is_instr direct =
      let (b, ran, e, mem, first) = setup-binary h in
      let booted = Holds_elim (IsBooted false env) _ b (setup-IsBooted env w host false h) ran in
      let starts = start_lem env w host false b booted (rw e is.no_debug) in
      let words = started-IsCore env w host false b booted in
      let pc : (b.cthreads 0).core.regs Reg.pc ≡ 0 = rw first refl in
      let b' : Booted H = started_at_0 b in
      (
        b',
        rw ran starts,
        iterate-step IsWorld supervisor (machine_at b' 0) i
            (record { core = words 0; bytes = booted.memory.1; world = record { cores = words } })
            is_instr (direct-IsAligned i (hart_of (machine_at b' 0)) pc direct)
            (ap (mem_rw b.mem) pc
              ∙ ap (λ (m : Memory). mem_rw m 0) mem
              ∙ first_word args.memory_size n bytes long is.fits small
              ∙ ap ok word),
        pc,
        rw first refl,
        mem,
      )
