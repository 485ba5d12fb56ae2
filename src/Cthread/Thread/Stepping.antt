-- ===== src/Cthread/Thread/Stepping.antt =====
-- The debugger's steps of a core, with no other core and with one that halts it in between, and a
-- continue that another core overtakes; src/cthread.c.
use switch_v.Common.{if◌then◌else◌, ◌≡◌, refl, Bool, true, false, arith}
use switch_v.Common.Outcome.{ok}
use switch_v.Cpu.State.{VCore}
use switch_v.Cthread.{
  store_exit, step_s, CthreadState, halted, stepping, halt_pending, halt_s, Cthread, is_start_s,
  cthread_signal_hsm, cthread_signal_halt, cthread_signal_continue,
}
use switch_v.Cthread.Thread.{
  fsm_enter, fsm_wake, fsm_relock, cthread_wait_on_sign, step_call, is_stepping, step_release,
  run_step, top, waiting, System, awaits_stepping, Move, enters, wakes, computes, leaves,
  leaves_step, relocks, replaces, hsm, halts, continues, calls_step, releases, returns_step, Reach,
  here, next, with_thread,
}

-- Once a core that is being stepped is halted by another core before the debugger has seen it
-- step, the debugger never returns from `cthread_signal_step`.
abbrev pub stays_halted : CthreadState → Bool
stays_halted halted = true
stays_halted halt_pending = true
stays_halted _ = false

pub record IsStuck (s : System) : Type 0 where
  pub awaits : s.caller ≡ awaits_stepping
  pub state : stays_halted s.thread.state ≡ true
  pub signal : s.thread.signal ≡ halt_s

Move-IsStuck : {s u : System} → Move s u → IsStuck s → IsStuck u
unfolding fsm_enter fsm_wake fsm_relock cthread_wait_on_sign cthread_signal_hsm cthread_signal_halt
    cthread_signal_continue step_call
Move-IsStuck (enters s p) w = record {
  awaits = ground arith;
  state = ground arith;
  signal = ground arith;
}
Move-IsStuck (wakes s on p) w = record {
  awaits = ground arith;
  state = ground arith;
  signal = ground arith;
}
Move-IsStuck (computes s core p e) w = record {
  awaits = ground arith;
  state = ground arith;
  signal = ground arith;
}
Move-IsStuck (leaves s core p f e) w = record {
  awaits = ground arith;
  state = ground arith;
  signal = ground arith;
}
Move-IsStuck (leaves_step s core p f e) w = record {
  awaits = ground arith;
  state = ground arith;
  signal = ground arith;
}
Move-IsStuck (relocks s t p e) w = record {
  awaits = ground arith;
  state = ground arith;
  signal = ground arith;
}
Move-IsStuck (replaces s init off) w = record {
  awaits = ground arith;
  state = ground arith;
  signal = ground arith;
}
Move-IsStuck (hsm s on) w = record {
  awaits = ground arith;
  state = ground arith;
  signal = ground arith;
}
Move-IsStuck (halts s) w = record {
  awaits = ground arith;
  state = ground arith;
  signal = ground arith;
}
Move-IsStuck (continues s t c h e) w = record {
  awaits = ground arith;
  state = ground arith;
  signal = ground arith;
}
Move-IsStuck (calls_step s t c e) w = record {
  awaits = ground arith;
  state = ground arith;
  signal = ground arith;
}
Move-IsStuck (releases s c h) w = record {
  awaits = ground arith;
  state = ground arith;
  signal = ground arith;
}
Move-IsStuck (returns_step s c h) w = record {
  awaits = ground arith;
  state = ground arith;
  signal = ground arith;
}

halted-IsStuck :
    (s : System)
    → s.caller ≡ awaits_stepping
    → s.thread.state ≡ stepping
    → IsStuck (with_thread s (cthread_signal_halt s.thread))
unfolding cthread_signal_halt
halted-IsStuck s c h = record { awaits = c; state = ground arith; signal = ground arith }

Reach-IsStuck : {s u : System} → IsStuck s → Reach s u → IsStuck u
Reach-IsStuck w here = w
Reach-IsStuck w (next r m) = Move-IsStuck m (Reach-IsStuck w r)

-- A core that is being stepped, and has entered the step, is halted by another core before the
-- debugger has seen it stepping: then whatever happens next, the debugger stays in its first wait
-- and never returns from `cthread_signal_step`.
pub Reach-stuck :
    (s u : System)
    → s.caller ≡ awaits_stepping
    → s.thread.state ≡ stepping
    → Reach (with_thread s (cthread_signal_halt s.thread)) u
    → u.caller ≡ awaits_stepping
Reach-stuck s u c h r = (Reach-IsStuck (halted-IsStuck s c h) r).awaits

-- A step of a core that waits halted, when nothing else happens to its thread. `cthread_signal_step`
-- wakes the thread; it leaves the wait, enters the step with its exit flag set, and waits as stepping,
-- which the debugger waits for. Told to halt again it leaves this wait, for `vcore_run` exactly if the
-- core was started, and whatever core a round leaves, it waits halted then, with the signal to go back
-- to that it had.
pub fsm_enter-step_call :
    (t : Cthread)
    → t.state ≡ halted
    → (called : Cthread) × (entered : Cthread) × (step_call t ≡ ok called)
      × ((fsm_wake halt_s called).0 ≡ top)
      × (fsm_enter (fsm_wake halt_s called).1 ≡ (waiting step_s, entered))
      × (is_stepping entered.state ≡ true)
      × (entered.core.atomic_exit_loop ≡ true)
      × (fsm_wake step_s (step_release entered)
          ≡ ((if is_start_s t.old_signal then run_step else top), step_release entered))
      × ((core : VCore)
          → fsm_enter (record (step_release entered) { core = core })
            ≡ (waiting halt_s, record t { state = halted; signal = halt_s; core = core }))
unfolding step_call fsm_enter fsm_wake cthread_wait_on_sign
fsm_enter-step_call t at =
    let called : Cthread = store_exit (record t { signal = step_s }) true in
    (called, record called { state = stepping }, rw at, refl, refl, refl, refl, refl, λ core. refl)
