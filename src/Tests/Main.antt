-- ===== src/Tests/Main.antt =====
-- A flat binary of one instruction, from the command line on.
use switch_v.Common.{ℕ, ◌+◌, ◌≡◌, refl, arith, some, true, false, [], ◌∷◌}
use switch_v.Common.{update}
use switch_v.Common.Int.{pos}
use switch_v.Common.Outcome.{ok, Holds}
use switch_v.Memory.{page_size}
use switch_v.Cpu.Reg
use switch_v.Cpu.Run.{VCoreInit, iterate, vcore_run}
use switch_v.Cpu.Invariant.{IsMachine, machine_of}
use switch_v.Cpu.Isa
use switch_v.Cpu.Isa.{Instr, encode}
use switch_v.Cpu.Isa.Hart.{step, hart_of, observe}
use switch_v.Cthread.{start_s, continue_pending}
use switch_v.ThreadsMgr.Init.{halted_thread}
use switch_v.Supervisor.Sys.{supervisor}
use switch_v.Supervisor.Words.{IsWorld}
use switch_v.Loader.Binary.{file_of, with_file}
use switch_v.Args.{
  ArgsContext, opt_m, opt_f, opt_b, defaults, copy_name, ctx_init, ctx_options, ctx_option,
  text_from,
}
use switch_v.Debug.{stub_ok}
use switch_v.Main.{Booted, Env, setup, main}
use switch_v.Main.Boot.{IsEnv}
use switch_v.Main.Runs.{machine_at, main-vcore_run}
use switch_v.Main.Binary.{IsBinary, zeros, from_0, setup-binary, main-first_step}
use switch_v.Tests.Data.{cleared-IsCore, stopped_thread}
use switch_v.Tests.User.{Files, host}

-- ADDI x1, x0, 5.
abbrev sets_five : Instr
sets_five = Isa.alu_imm Isa.addi 1 0 5

-- 0x00500093.
abbrev code : ℕ → ℕ
code = update (update (λ _. 0) 0 147) 2 80

abbrev garbage : VCoreInit
garbage = record { pc = 1; sp = 2; id = 3; opaque = 4; gp = 5; elf_brk = 6 }

-- `-m 1 -b -f a`.
abbrev env : Env Files
env = record {
  options = opt_m (pos 1) ∷ opt_b ∷ opt_f (97 ∷ []) ∷ [];
  files = λ name. file_of 4 code;
  vmem = some 8192;
  args_allocated = true;
  threads_allocated = true;
  conds = true;
  fresh = λ i. stopped_thread;
  garbage = garbage;
  stub_init = stub_ok;
  stub_cmds = λ b. (stub_ok, b);
}

env-IsEnv : IsEnv env
env-IsEnv = record {
  files = λ name n. record { byte = λ a. ground arith };
  fresh = λ i. cleared-IsCore;
  garbage = record {
    pc = omega arith;
    id = omega arith;
    opaque = omega arith;
    gp = omega arith;
    elf_brk = omega arith;
  };
}

abbrev args : ArgsContext
args = record defaults {
  elf_name = update (update (λ _. 0) 0 97) 1 0;
  named = 1;
  elf_args = some (97 ∷ []);
  binary = true;
  memory_size = 1048576;
  stack_base = 1044480;
}

options_lem : ctx_init false env.options ≡ ok args
unfolding ctx_init ctx_options ctx_option text_from copy_name
options_lem = refl

env-IsBinary : IsBinary env args 4 code
env-IsBinary = record {
  options = options_lem;
  binary = refl;
  no_debug = refl;
  vmem = 8192;
  mapped = refl;
  page = refl;
  file = refl;
  some_bytes = omega arith;
  fits = omega arith;
  threads = refl;
  conds = refl;
}

abbrev no_files : Files
no_files = λ n. false

main-first_step_example :
    (b : Booted Files) × (main env host false no_files ≡ ok b)
    × (observe (iterate supervisor (machine_at b 0)) ≡ step sets_five (hart_of (machine_at b 0)))
    × ((hart_of (machine_at b 0)).pc ≡ 0)
    × ((hart_of (machine_at b 0)).gpr Reg.sp ≡ args.stack_base)
    × (b.mem ≡ with_file (zeros args.memory_size) 4 code)
main-first_step_example =
    main-first_step env host args 4 code env-IsBinary env-IsEnv no_files sets_five (omega arith)
      (λ j. ground arith) refl (omega arith, omega arith, omega arith) tt

-- The state that `main` has set up before it starts core 0.
set_up :
    (b : Booted Files) × (setup env host false no_files ≡ ok b)
    × (b.args ≡ args)
    × (b.mem ≡ with_file (zeros args.memory_size) 4 code)
    × (b.cthreads 0 ≡ halted_thread start_s (from_0 env host args 4 code env-IsBinary))
set_up = setup-binary env host args 4 code env-IsBinary no_files

main-vcore_run_example :
    (b' : Booted Files) × (main env host false no_files ≡ ok b')
    × ((b'.cthreads 0).state ≡ continue_pending)
    × ((b'.cthreads 0).signal ≡ start_s)
    × ((b'.cthreads 0).core.atomic_exit_loop ≡ false)
    × ((b'.cthreads 0).core.regs Reg.sp + page_size ≡ b'.mem.size)
    × Holds
        (λ r. IsMachine IsWorld (machine_of r))
        (vcore_run supervisor (false ∷ true ∷ []) (machine_at b' 0))
main-vcore_run_example =
    main-vcore_run env env-IsEnv host no_files set_up.0 0 (false ∷ true ∷ []) set_up.1
      (rw set_up.2 refl)
