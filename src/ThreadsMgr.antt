-- ===== src/ThreadsMgr.antt =====
-- The manager of the cores' threads, src/threads_mgr2.c, and the context of src/args.h and
-- src/main.c that it reads. The array of threads is a function of the index; `ctx.cores` of them
-- are in use.
use switch_v.Common.{ℕ, zero, suc, ◌-◌, Bool, true, false, not, ◌&&◌, ◌||◌, Option, none, some}
use switch_v.Common.{◌==◌, if◌then◌else◌, update}
use switch_v.Common.Outcome.{Outcome, ok, stop, exits, aborts, ◌>>=◌}
use switch_v.Cpu.Run.{VCoreInit}
use switch_v.Cthread.Thread.{step_call}
use switch_v.Cthread.{Cthread, CthreadState, started, stopped, is_halted, cthread_init}
use switch_v.Cthread.{cthread_signal_halt, cthread_signal_continue, cthread_get_state}
pub mod Laws
pub mod Init

-- The fields of `Args_Context` that the core of the emulator reads.
pub record Ctx : Type 0 where
  pub cores : ℕ
  pub debug : Bool
  pub memory_size : ℕ

abbrev pub Cthreads : Type 0
Cthreads = ℕ → Cthread

-- `for (i = 0; i < n; i++) op(&cthreads[i])`.
unfoldable pub each_core : (Cthread → Cthread) → ℕ → Cthreads → Cthreads
each_core op zero ts = ts
each_core op (suc n) ts = let before = each_core op n ts in update before n (op (before n))

unfoldable pub each_core_ok : (Cthread → Outcome Cthread) → ℕ → Cthreads → Outcome Cthreads
each_core_ok op zero ts = ok ts
each_core_ok op (suc n) ts =
    each_core_ok op n ts >>= λ before. op (before n) >>= λ t. ok (update before n t)

-- The loop asks core 0 first; here the last core is the outer test, with the same answer.
unfoldable pub all_halted : ℕ → Cthreads → Bool
all_halted zero ts = true
all_halted (suc n) ts = all_halted n ts && is_halted (cthread_get_state (ts n))

unfoldable pub threads_mgr_are_halted : Ctx → Cthreads → Bool
unfolding all_halted cthread_get_state
threads_mgr_are_halted ctx ts = all_halted ctx.cores ts

unfoldable pub threads_mgr_halt_cores : Ctx → Cthreads → Cthreads
unfolding each_core cthread_signal_halt
threads_mgr_halt_cores ctx ts = each_core cthread_signal_halt ctx.cores ts

unfoldable pub threads_mgr_continue_core : Ctx → ℕ → Cthreads → Outcome Cthreads
threads_mgr_continue_core ctx core_idx ts =
    if not ctx.debug
    then stop aborts
    else if not (is_halted (cthread_get_state (ts core_idx)))
    then stop (exits 1)
    else (cthread_signal_continue (ts core_idx) >>= λ t. ok (update ts core_idx t))

-- `busy`: another thread holds the mutex of halting and running all cores.
unfoldable pub threads_mgr_continue_cores : Bool → Ctx → Cthreads → Outcome Cthreads
unfolding all_halted each_core_ok cthread_signal_continue cthread_get_state
threads_mgr_continue_cores busy ctx ts =
    if busy
    then ok ts
    else if not (all_halted ctx.cores ts)
    then stop (exits 1)
    else each_core_ok cthread_signal_continue ctx.cores ts

-- Up to the first wait of `cthread_signal_step`.
unfoldable pub threads_mgr_step_core : Ctx → ℕ → Cthreads → Outcome Cthreads
threads_mgr_step_core ctx core_idx ts =
    if not ctx.debug
    then stop aborts
    else if not (is_halted (cthread_get_state (ts core_idx)))
    then stop (exits 1)
    else (step_call (ts core_idx) >>= λ t. ok (update ts core_idx t))

-- The configuration of a core but the first: zeros, and its index.
abbrev pub idle_init : ℕ → VCoreInit
idle_init i = record { pc = 0; sp = 0; id = i; opaque = 0; gp = 0; elf_brk = 0 }

-- Cores 1 to n.
unfoldable pub init_stopped : Bool → ℕ → Cthreads → Outcome Cthreads
init_stopped conds zero ts = ok ts
init_stopped conds (suc n) ts = init_stopped conds n ts >>= λ before.
    cthread_init conds stopped (some (idle_init (suc n))) >>= λ t. ok (update before (suc n) t)

-- `allocated`: `malloc` gave memory, whose contents are `fresh`. The threads are started by
-- `cthread_run` afterwards, which is the system's.
unfoldable pub threads_mgr_init : Bool → Bool → Cthreads → Ctx → VCoreInit → Outcome Cthreads
unfolding init_stopped
threads_mgr_init allocated conds fresh ctx core0_init =
    if not allocated
    then stop (exits 1)
    else (cthread_init conds started (some core0_init) >>= λ t.
        init_stopped conds (ctx.cores - 1) (update fresh 0 t))
