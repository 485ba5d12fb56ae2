-- ===== src/Cthread/Thread.antt =====
-- The thread that runs a core, `cthread_fsm` of src/cthread.c, and the debugger's
-- `cthread_signal_step`. Both give up `cthread->mutex` where they wait on a condition and where
-- `vcore_run` runs, so they are cut there: a function for each piece that holds the mutex, and a
-- phase for each place in between. A wait may end at any time, as POSIX allows, and tests again.
use switch_v.Common.{◌≡◌, Bool, true, false, some, if◌then◌else◌}
use switch_v.Common.Outcome.{Outcome, ok, stop, aborts}
use switch_v.Cpu.State.{VCore}
use switch_v.Cpu.Run.{VCoreInit, vcore_init}
use switch_v.Cthread.{
  CthreadState, started, halted, stepping, CthreadSignal, start_s, stop_s, suspend_s, halt_s,
  step_s, HsmSignal, Cthread, state_of, is_start_s, is_halted, store_exit, cthread_signal_hsm,
  cthread_signal_halt, cthread_signal_continue, cthread_get_hsm_state, is_started_or_pending,
}
pub mod HotLoop
pub mod Stepping

-- Where the thread is: before `cthread_fsm` takes the mutex, in `cthread_wait_on_sign`, in the
-- `vcore_run` of START_S, after that has loaded a set exit flag, and in the `vcore_run` of STEP_S.
pub data Phase : Type 0 where
  top running left run_step : Phase
  waiting : CthreadSignal → Phase

abbrev pub same_signal : CthreadSignal → CthreadSignal → Bool
same_signal start_s start_s = true
same_signal stop_s stop_s = true
same_signal suspend_s suspend_s = true
same_signal halt_s halt_s = true
same_signal step_s step_s = true
same_signal _ _ = false

-- A round of the loop of `cthread_wait_on_sign`; `after` is where the thread goes if it ends.
unfoldable pub cthread_wait_on_sign : CthreadSignal → Phase → Cthread → Phase × Cthread
cthread_wait_on_sign signal after t =
    if same_signal t.signal signal
    then (waiting signal, record t { state = state_of signal })
    else (after, t)

-- After the wait on a signal: only a core that was turned on is stepped.
abbrev pub after_wait : CthreadSignal → Cthread → Phase
after_wait step_s t = if is_start_s t.old_signal then run_step else top
after_wait _ t = top

-- The `switch` over the signal.
abbrev pub enter_on : CthreadSignal → Cthread → Phase × Cthread
enter_on start_s t = (running, record (store_exit t false) { state = started })
enter_on stop_s t = cthread_wait_on_sign stop_s top t
enter_on suspend_s t = cthread_wait_on_sign suspend_s top t
enter_on halt_s t = cthread_wait_on_sign halt_s top t
enter_on step_s t = cthread_wait_on_sign step_s (after_wait step_s t) (store_exit t true)

-- `cthread_fsm` from its first lock to where it gives up the mutex.
unfoldable pub fsm_enter : Cthread → Phase × Cthread
unfolding cthread_wait_on_sign
fsm_enter t = enter_on t.signal t

-- From the end of a wait on.
unfoldable pub fsm_wake : CthreadSignal → Cthread → Phase × Cthread
unfolding cthread_wait_on_sign
fsm_wake signal t = cthread_wait_on_sign signal (after_wait signal t) t

-- From the lock after the `vcore_run` of START_S on: the assertion of the hot loop.
unfoldable pub fsm_relock : Cthread → Outcome Cthread
fsm_relock t = if t.core.atomic_exit_loop then ok t else stop aborts

-- `cthread_signal_step` up to its first wait, between the two, and where it is.
unfoldable pub step_call : Cthread → Outcome Cthread
step_call t =
    if is_halted t.state then ok (store_exit (record t { signal = step_s }) true) else stop aborts

abbrev pub is_stepping : CthreadState → Bool
is_stepping stepping = true
is_stepping _ = false

abbrev pub step_release : Cthread → Cthread
step_release t = record t { signal = halt_s }

pub data Caller : Type 0 where
  free awaits_stepping awaits_halted : Caller

-- A core's thread and the debugger.
pub record System : Type 0 where
  pub thread : Cthread
  pub phase : Phase
  pub caller : Caller

abbrev pub with_thread : System → Cthread → System
with_thread s t = record s { thread = t }

abbrev pub moved_to : System → Phase × Cthread → System
moved_to s (p, t) = record s { phase = p; thread = t }

abbrev pub is_executing : Phase → Bool
is_executing running = true
is_executing run_step = true
is_executing _ = false

-- What may happen next. Any core may send the HSM signals and, at a breakpoint, halt; the debugger
-- continues a core that it has seen halted, as `threads_mgr_continue_core` does, and does so or
-- steps only when it is not in a step already. The rounds of `vcore_run` leave any core, with the flag
-- that the others have set: a history here is one of any program. `vcore_run` loads the flag after it
-- has executed an instruction, so that it leaves with a core that a round has made. HART_START resets
-- a core, wherever its thread is, unless the HSM extension reports it started or about to be.
pub data Move : System → System → Type 0 where
  enters : (s : System) → s.phase ≡ top → Move s (moved_to s (fsm_enter s.thread))
  wakes :
      (s : System) (signal : CthreadSignal)
      → s.phase ≡ waiting signal
      → Move s (moved_to s (fsm_wake signal s.thread))
  computes :
      (s : System) (core : VCore)
      → is_executing s.phase ≡ true
      → core.atomic_exit_loop ≡ s.thread.core.atomic_exit_loop
      → Move s (with_thread s (record s.thread { core = core }))
  leaves :
      (s : System) (core : VCore)
      → s.phase ≡ running
      → s.thread.core.atomic_exit_loop ≡ true
      → core.atomic_exit_loop ≡ true
      → Move s (record s { phase = left; thread = record s.thread { core = core } })
  leaves_step :
      (s : System) (core : VCore)
      → s.phase ≡ run_step
      → s.thread.core.atomic_exit_loop ≡ true
      → core.atomic_exit_loop ≡ true
      → Move s (record s { phase = top; thread = record s.thread { core = core } })
  relocks :
      (s : System) (t : Cthread)
      → s.phase ≡ left
      → fsm_relock s.thread ≡ ok t
      → Move s (record s { thread = t; phase = top })
  replaces :
      (s : System) (init : VCoreInit)
      → is_started_or_pending (cthread_get_hsm_state s.thread) ≡ false
      → Move s (with_thread s (record s.thread { core = vcore_init (some init) }))
  hsm :
      (s : System) (signal : HsmSignal)
      → Move s (with_thread s (cthread_signal_hsm signal s.thread))
  halts : (s : System) → Move s (with_thread s (cthread_signal_halt s.thread))
  continues :
      (s : System) (t : Cthread)
      → s.caller ≡ free
      → is_halted s.thread.state ≡ true
      → cthread_signal_continue s.thread ≡ ok t
      → Move s (with_thread s t)
  calls_step :
      (s : System) (t : Cthread)
      → s.caller ≡ free
      → step_call s.thread ≡ ok t
      → Move s (record s { thread = t; caller = awaits_stepping })
  releases :
      (s : System)
      → s.caller ≡ awaits_stepping
      → is_stepping s.thread.state ≡ true
      → Move s (record s { thread = step_release s.thread; caller = awaits_halted })
  returns_step :
      (s : System)
      → s.caller ≡ awaits_halted
      → is_halted s.thread.state ≡ true
      → Move s (record s { caller = free })

pub data Reach (s : System) : System → Type 0 where
  here : Reach s s
  next : {t u : System} → Reach s t → Move t u → Reach s u
