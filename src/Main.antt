-- ===== src/Main.antt =====
-- The entry point, `main` of src/main.c: what it does before the cores run, in the order of the
-- code, and how it starts core 0 or hands over to the debugger. What the C library, the system and
-- the stub give is a parameter (`Env`). The loop that follows does nothing.
use switch_v.Common.{ℕ, Bool, Option, none, some, List, if◌then◌else◌, update}
use switch_v.Common.Outcome.{Outcome, ok, stop, undefined, ◌>>=◌}
use switch_v.Memory.{Memory, mem_init}
use switch_v.Cpu.Run.{VCoreInit}
use switch_v.Cthread.{cthread_signal_continue}
use switch_v.ThreadsMgr.{Ctx, Cthreads, threads_mgr_init}
use switch_v.User.Host.{Host}
use switch_v.User.Args.{emu_args}
use switch_v.User.Std.{emu_std}
use switch_v.Elf.{Source}
use switch_v.Loader.{ld_bin, ld_elf}
use switch_v.Args.{Opt, ArgsContext, ctx_init}
use switch_v.Debug.{StubRet, run_debug}
pub mod Boot
pub mod Runs
pub mod Binary

-- The global state when `main` reaches its loop; `host` is that of USER builds.
pub record Booted (H : Type 0) : Type 0 where
  pub args : ArgsContext
  pub mem : Memory
  pub cthreads : Cthreads
  pub host : H

-- The options and files of the command; what `mmap` gives; whether `malloc` gives memory for the
-- arguments of the guest and for the threads, with the contents `fresh`, and whether the last
-- condition variable is created; the contents of `core0_init`, which is not initialised; and what
-- the stub returns and does.
pub record Env (H : Type 0) : Type 0 where
  pub options : List Opt
  pub files : (ℕ → ℕ) → Source
  pub vmem : Option ℕ
  pub args_allocated : Bool
  pub threads_allocated : Bool
  pub conds : Bool
  pub fresh : Cthreads
  pub garbage : VCoreInit
  pub stub_init : StubRet
  pub stub_cmds : Booted H → StubRet × Booted H

-- The fields of the context that the threads read.
abbrev pub ctx_of : ArgsContext → Ctx
ctx_of args = record { cores = args.cores; debug = args.debug; memory_size = args.memory_size }

module _ {H : Type 0} (env : Env H) where
  -- `strlen` of no text is an access to the address 0.
  abbrev pub with_args : ArgsContext → Memory → Outcome Memory
  with_args args m = elim args.elf_args [
    | none ↦ stop undefined
    | some text ↦ emu_args env.args_allocated args.stack_base text m
  ]

  unfoldable pub load : Bool → ArgsContext → VCoreInit → Memory → Outcome (VCoreInit × Memory)
  load is_user args init m =
      let file = env.files args.elf_name in
      if args.binary then ld_bin file init m else ld_elf is_user file init m

  abbrev pub with_sp : ArgsContext → VCoreInit
  with_sp args = record env.garbage { sp = args.stack_base }

  -- The call of `run_debug`, or of `cthread_signal_continue` for core 0.
  unfoldable pub start : Booted H → Outcome (Booted H)
  start b =
      let (ret, after) = env.stub_cmds b in
      if b.args.debug
      then (run_debug env.stub_init ret >>= λ _. ok after)
      else (cthread_signal_continue (b.cthreads 0) >>= λ t.
          ok (record b { cthreads = update b.cthreads 0 t }))

  module _ (host : Host H) where
    -- `emu_args` and `emu_std`, of USER builds.
    unfoldable pub user_setup : ArgsContext → Memory → H → Outcome (Memory × H)
    user_setup args m h = with_args args m >>= λ m'.
        emu_std host args.elf_stdin args.elf_stdout args.elf_stderr h >>= λ h'. ok (m', h')

    -- `main` up to `threads_mgr_init`.
    unfoldable pub setup : Bool → H → Outcome (Booted H)
    setup is_user h = do
      args ← ctx_init is_user env.options
      m ← mem_init env.vmem args.memory_size
      ready ← (if is_user then user_setup args m h else ok (m, h))
      loaded ← load is_user args (with_sp args) ready.0
      ts ← threads_mgr_init env.threads_allocated env.conds env.fresh (ctx_of args) loaded.0
      ok (record { args = args; mem = loaded.1; cthreads = ts; host = ready.1 })

    unfoldable pub main : Bool → H → Outcome (Booted H)
    main is_user h = setup is_user h >>= start
