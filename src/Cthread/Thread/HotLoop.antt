-- ===== src/Cthread/Thread/HotLoop.antt =====
-- The assertion of the hot loop in `cthread_fsm` of src/cthread.c.
use switch_v.Common.{◌≡◌, refl, subst, Bool, true, false, some, arith}
use switch_v.Common.Outcome.{ok, stop, aborts}
use switch_v.Cpu.Run.{VCoreInit, vcore_init}
use switch_v.Cthread.{
  CthreadState, started, stop_pending, suspend_pending, stepping, halt_pending, start_s, step_s,
  Cthread, store_exit, cthread_signal_hsm, cthread_signal_halt, cthread_signal_continue,
  cthread_get_hsm_state, is_started_or_pending, cthread_signal_start, hsm_stop, stop_s,
}
use switch_v.Cthread.Thread.{
  Phase, top, running, left, run_step, waiting, fsm_enter, fsm_wake, fsm_relock,
  cthread_wait_on_sign, step_call, System, free, moved_to, Move, enters, wakes, computes, leaves,
  leaves_step, relocks, replaces, hsm, halts, continues, calls_step, releases, returns_step, Reach,
  here, next,
}

-- The states in which a core may be executing, or about to be stepped.
abbrev pub runs_in : CthreadState → Bool
runs_in started = true
runs_in stop_pending = true
runs_in suspend_pending = true
runs_in halt_pending = true
runs_in _ = false

abbrev pub steps_in : CthreadState → Bool
steps_in stepping = true
steps_in halt_pending = true
steps_in _ = false

abbrev pub fits : Phase → CthreadState → Bool
fits running state = runs_in state
fits left state = runs_in state
fits run_step state = steps_in state
fits (waiting step_s) state = steps_in state
fits _ state = true

-- A thread that has left the loop has its exit flag set.
abbrev pub flagged : Phase → Bool → Bool
flagged left flag = flag
flagged _ flag = true

pub record IsSystem (s : System) : Type 0 where
  pub phase_fits : fits s.phase s.thread.state ≡ true
  pub exit_flag : flagged s.phase s.thread.core.atomic_exit_loop ≡ true

-- A move that does not reset a core before its thread waits.
abbrev pub waits : Phase → Bool
waits (waiting _) = true
waits _ = false

abbrev pub IsOrderly : {s u : System} → Move s u → Type 0
IsOrderly (replaces s init off) = waits s.phase ≡ true
IsOrderly _ = Unit

abbrev pub AreOrderly : {s u : System} → Reach s u → Type 0
AreOrderly here = Unit
AreOrderly (next r m) = AreOrderly r × IsOrderly m

Move-IsSystem : {s u : System} (m : Move s u) → IsOrderly m → IsSystem s → IsSystem u
unfolding fsm_enter fsm_wake fsm_relock cthread_wait_on_sign cthread_signal_hsm cthread_signal_halt
    cthread_signal_continue step_call
Move-IsSystem (enters s p) o w = ground arith
Move-IsSystem (wakes s signal p) o w = ground arith
Move-IsSystem (computes s core p e) o w = record {
  phase_fits = w.phase_fits;
  exit_flag = rw e w.exit_flag;
}
Move-IsSystem (leaves s core p f e) o w = ground arith
Move-IsSystem (leaves_step s core p f e) o w = ground arith
Move-IsSystem (relocks s t p e) o w = ground arith
Move-IsSystem (replaces s init off) o w = ground arith
Move-IsSystem (hsm s signal) o w = ground arith
Move-IsSystem (halts s) o w = ground arith
Move-IsSystem (continues s t c h e) o w = ground arith
Move-IsSystem (calls_step s t c e) o w = ground arith
Move-IsSystem (releases s c h) o w = record { phase_fits = w.phase_fits; exit_flag = w.exit_flag }
Move-IsSystem (returns_step s c h) o w = record {
  phase_fits = w.phase_fits;
  exit_flag = w.exit_flag;
}

Reach-IsSystem : {s u : System} → IsSystem s → (r : Reach s u) → AreOrderly r → IsSystem u
Reach-IsSystem w here o = w
Reach-IsSystem w (next r m) (o, o1) = Move-IsSystem m o1 (Reach-IsSystem w r o)

-- The system of a new thread.
abbrev pub new_system : Cthread → System
new_system t = record { thread = t; phase = top; caller = free }

new_system-IsSystem : (t : Cthread) → IsSystem (new_system t)
new_system-IsSystem t = record { phase_fits = refl; exit_flag = refl }

-- In every history of signals, steps and continues of a new thread, in which only a core that has
-- been seen halted is continued and HART_START resets a core only while its thread waits, the
-- assertion of the hot loop holds: the exit flag is set when the thread has left `vcore_run` and takes
-- the mutex again, and the thread goes on.
pub fsm_relock-Reach :
    (t : Cthread) (s : System)
    → (r : Reach (new_system t) s) → AreOrderly r
    → s.phase ≡ left
    → fsm_relock s.thread ≡ ok s.thread
unfolding fsm_relock
fsm_relock-Reach t s r o p =
    let w = Reach-IsSystem (new_system-IsSystem t) r o in
    let flag : flagged s.phase s.thread.core.atomic_exit_loop ≡ true = w.exit_flag in ground arith

-- The core of a thread as HART_START resets it.
abbrev pub reset_by : VCoreInit → Cthread → Cthread
reset_by init t = record t { core = vcore_init (some init) }

-- A core that has been told to stop and has left its loop.
abbrev leaving : Cthread → System
leaving t = record {
  thread = record t {
    state = stop_pending;
    signal = stop_s;
    old_signal = stop_s;
    core = record t.core { atomic_exit_loop = true };
  };
  phase = left;
  caller = free;
}

leaving-Reach : (t : Cthread) → t.signal ≡ start_s → Reach (new_system t) (leaving t)
unfolding fsm_enter cthread_signal_hsm
leaving-Reach t to_start =
    let run : System = record {
      thread = record (store_exit t false) { state = started };
      phase = running;
      caller = free;
    } in
    let enters_run : Move (new_system t) run =
      subst (λ (r : Phase × Cthread). Move (new_system t) (moved_to (new_system t) r)) (rw to_start)
        (enters (new_system t) refl) in
    next (next (next here enters_run) (hsm run hsm_stop))
      (leaves _ (leaving t).thread.core refl refl refl)

-- From a new thread that is to start, a history leads to where the core has been told to stop and has
-- left `vcore_run`, its exit flag set, as the assertion of the hot loop asks. HART_START is not refused
-- there, and clears the flag with the reset of the core: the assertion fails, and the process aborts.
pub fsm_relock-reset :
    (t : Cthread) (init : VCoreInit)
    → t.signal ≡ start_s
    → (s : System) × (_ : Reach (new_system t) s) × (s.phase ≡ left)
      × (fsm_relock s.thread ≡ ok s.thread)
      × (is_started_or_pending (cthread_get_hsm_state s.thread) ≡ false)
      × (fsm_relock (cthread_signal_start (reset_by init s.thread)) ≡ stop aborts)
unfolding fsm_relock cthread_get_hsm_state cthread_signal_start cthread_signal_hsm vcore_init
fsm_relock-reset t init to_start = (leaving t, leaving-Reach t to_start, refl, refl, refl, refl)
