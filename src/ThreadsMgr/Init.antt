-- ===== src/ThreadsMgr/Init.antt =====
-- The threads that `threads_mgr_init` of src/threads_mgr2.c makes: core 0 is to start, the others
-- are stopped, and all are halted.
use switch_v.Common.{ℕ, zero, suc, ◌-◌, ◌≤◌, ◌<◌, ◌≡◌, refl, ◌∙◌, arith}
use switch_v.Common.{Bool, true, false, not, ◌&&◌, some, ltb, leb, if◌then◌else◌, update}
use switch_v.Common.Outcome.{ok, Holds, Holds_elim, Holds-if, Holds->>=, Holds-mono}
use switch_v.Cpu.Run.{VCoreInit, vcore_init}
use switch_v.Cthread.{
  Cthread, started, stopped, halted, CthreadSignal, start_s, stop_s, halt_s, cthread_init,
}
use switch_v.ThreadsMgr.{Ctx, Cthreads, idle_init, init_stopped, threads_mgr_init}

-- A thread that is halted before it has run.
abbrev pub halted_thread : CthreadSignal → VCoreInit → Cthread
halted_thread old init = record {
  state = halted;
  signal = halt_s;
  old_signal = old;
  core = vcore_init (some init);
}

-- The array when the first `n` cores but core 0 have been made.
abbrev made : ℕ → Cthreads → Cthreads
made n ts i = if ltb 0 i && leb i n then halted_thread stop_s (idle_init i) else ts i

cthread_init-started :
    (conds : Bool) (init : VCoreInit)
    → Holds (λ t. t ≡ halted_thread start_s init) (cthread_init conds started (some init))
unfolding cthread_init
cthread_init-started true init = refl
cthread_init-started false init = tt

cthread_init-stopped :
    (conds : Bool) (init : VCoreInit)
    → Holds (λ t. t ≡ halted_thread stop_s init) (cthread_init conds stopped (some init))
unfolding cthread_init
cthread_init-stopped true init = refl
cthread_init-stopped false init = tt

abbrev IsMade : ℕ → Cthreads → Cthreads → Type 0
IsMade n ts after = (i : ℕ) → after i ≡ made n ts i

init_stopped-IsMade :
    (conds : Bool) (n : ℕ) (ts : Cthreads) → Holds (IsMade n ts) (init_stopped conds n ts)
unfolding init_stopped
init_stopped-IsMade conds zero ts = λ i. ground arith
init_stopped-IsMade conds (suc n) ts =
    Holds->>= (IsMade n ts) (IsMade (suc n) ts) (init_stopped conds n ts) _
      (init_stopped-IsMade conds n ts)
      (λ before h.
        Holds->>= (λ t. t ≡ halted_thread stop_s (idle_init (suc n))) (IsMade (suc n) ts)
          (cthread_init conds stopped (some (idle_init (suc n)))) _
          (cthread_init-stopped conds (idle_init (suc n))) (λ t e i. ground (arith, h i)))

-- Every core in use is as it is to be, and the rest of the memory for threads is as it came.
pub record AreThreads (ctx : Ctx) (init : VCoreInit) (fresh ts : Cthreads) : Type 0 where
  pub first : ts 0 ≡ halted_thread start_s init
  pub others : (i : ℕ) → 0 < i → i < ctx.cores → ts i ≡ halted_thread stop_s (idle_init i)
  pub rest : (i : ℕ) → 0 < i → ctx.cores ≤ i → ts i ≡ fresh i

pub threads_mgr_init-AreThreads :
    (allocated conds : Bool) (fresh : Cthreads) (ctx : Ctx) (init : VCoreInit)
    → Holds (AreThreads ctx init fresh) (threads_mgr_init allocated conds fresh ctx init)
unfolding threads_mgr_init
threads_mgr_init-AreThreads allocated conds fresh ctx init =
    Holds-if (AreThreads ctx init fresh) (not allocated) _ _ tt (
      Holds->>= (λ t. t ≡ halted_thread start_s init) (AreThreads ctx init fresh)
        (cthread_init conds started (some init)) _ (cthread_init-started conds init)
        (λ t e.
          Holds-mono (IsMade (ctx.cores - 1) (update fresh 0 t)) (AreThreads ctx init fresh)
            (init_stopped conds (ctx.cores - 1) (update fresh 0 t))
            (λ ts h. record {
              first = h 0 ∙ e;
              others = λ i some few. ground (arith, h i);
              rest = λ i some few. ground (arith, h i);
            })
            (init_stopped-IsMade conds (ctx.cores - 1) (update fresh 0 t))))

init_stopped-ok : (n : ℕ) (ts : Cthreads) → (after : Cthreads) × (init_stopped true n ts ≡ ok after)
unfolding init_stopped cthread_init
init_stopped-ok zero ts = (ts, refl)
init_stopped-ok (suc n) ts =
    let before = init_stopped-ok n ts in
    (update before.0 (suc n) (halted_thread stop_s (idle_init (suc n))), rw before.1 refl)

-- With memory for the threads, and every condition variable, all are made.
pub threads_mgr_init-ok :
    (fresh : Cthreads) (ctx : Ctx) (init : VCoreInit)
    → (ts : Cthreads) × (threads_mgr_init true true fresh ctx init ≡ ok ts)
      × AreThreads ctx init fresh ts
unfolding threads_mgr_init cthread_init
threads_mgr_init-ok fresh ctx init =
    let made = init_stopped-ok (ctx.cores - 1) (update fresh 0 (halted_thread start_s init)) in
    (
      made.0,
      made.1,
      Holds_elim (AreThreads ctx init fresh) (threads_mgr_init true true fresh ctx init) made.0
          (threads_mgr_init-AreThreads true true fresh ctx init) made.1,
    )
