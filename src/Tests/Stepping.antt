-- ===== src/Tests/Stepping.antt =====
-- Histories of the thread of a core.
use switch_v.Common.{◌≡◌, refl, true, false}
use switch_v.Common.Outcome.{ok, stop, aborts}
use switch_v.Cpu.State.{VCore}
use switch_v.Cpu.Run.{VCoreInit, cleared}
use switch_v.Cthread.{
  Cthread, halted, stepping, halt_pending, continue_pending, start_s, halt_s, step_s,
  cthread_signal_halt, cthread_signal_continue, cthread_signal_start, cthread_get_hsm_state,
  is_started_or_pending,
}
use switch_v.Cthread.Thread.{
  waiting, left, free, awaits_stepping, System, Reach, here, next, enters, wakes, leaves, halts,
  continues, fsm_enter, fsm_wake, fsm_relock, step_call, is_stepping, step_release, run_step, top,
  cthread_wait_on_sign, with_thread,
}
use switch_v.Cthread.Thread.HotLoop.{
  new_system, AreOrderly, reset_by, fsm_relock-Reach, fsm_relock-reset,
}
use switch_v.Cthread.Thread.Stepping.{Reach-stuck, fsm_enter-step_call}

abbrev flagged_core : VCore
flagged_core = record cleared { atomic_exit_loop = true }

abbrev new_thread : Cthread
new_thread = record { state = halted; signal = halt_s; old_signal = start_s; core = cleared }

-- A new thread that is continued, starts, and is halted while it runs.
abbrev halting : System
halting = record {
  thread = record {
    state = halt_pending;
    signal = halt_s;
    old_signal = start_s;
    core = flagged_core;
  };
  phase = left;
  caller = free;
}

abbrev resumed_thread : Cthread
resumed_thread = record {
  state = continue_pending;
  signal = start_s;
  old_signal = start_s;
  core = cleared;
}

halting_reached : (r : Reach (new_system new_thread) halting) × AreOrderly r
unfolding fsm_enter fsm_wake cthread_wait_on_sign cthread_signal_halt cthread_signal_continue
halting_reached =
    let waits = next here (enters (new_system new_thread) refl) in
    let resumed = next waits (continues _ resumed_thread refl refl refl) in
    let runs = next (next resumed (wakes _ halt_s refl)) (enters _ refl) in
    (
      next (next runs (halts _)) (leaves _ flagged_core refl refl refl),
      ((((((tt, tt), tt), tt), tt), tt), tt),
    )

fsm_relock-Reach_example : fsm_relock halting.thread ≡ ok halting.thread
fsm_relock-Reach_example =
    fsm_relock-Reach new_thread halting halting_reached.0 halting_reached.1 refl

-- HART_START at address 64, of hart 1.
abbrev restart : VCoreInit
restart = record { pc = 64; sp = 0; id = 1; opaque = 0; gp = 0; elf_brk = 0 }

fsm_relock-reset_example :
    (s : System) × (_ : Reach (new_system resumed_thread) s) × (s.phase ≡ left)
    × (fsm_relock s.thread ≡ ok s.thread)
    × (is_started_or_pending (cthread_get_hsm_state s.thread) ≡ false)
    × (fsm_relock (cthread_signal_start (reset_by restart s.thread)) ≡ stop aborts)
fsm_relock-reset_example = fsm_relock-reset resumed_thread restart refl

-- The debugger steps, the core has entered the step, and another one halts it.
abbrev in_step : System
in_step = record {
  thread = record { state = stepping; signal = step_s; old_signal = start_s; core = flagged_core };
  phase = waiting step_s;
  caller = awaits_stepping;
}

Reach-stuck_example :
    (with_thread in_step (cthread_signal_halt in_step.thread)).caller ≡ awaits_stepping
Reach-stuck_example =
    Reach-stuck in_step (with_thread in_step (cthread_signal_halt in_step.thread)) refl refl here

fsm_enter-step_call_example :
    (called : Cthread) × (entered : Cthread) × (step_call new_thread ≡ ok called)
    × ((fsm_wake halt_s called).0 ≡ top)
    × (fsm_enter (fsm_wake halt_s called).1 ≡ (waiting step_s, entered))
    × (is_stepping entered.state ≡ true)
    × (entered.core.atomic_exit_loop ≡ true)
    × (fsm_wake step_s (step_release entered) ≡ (run_step, step_release entered))
    × ((core : VCore)
        → fsm_enter (record (step_release entered) { core = core })
          ≡ (waiting halt_s, record new_thread { core = core }))
fsm_enter-step_call_example = fsm_enter-step_call new_thread refl
