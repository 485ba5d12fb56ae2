-- ===== src/Tests/Threads.antt =====
-- Threads that the debugger halts.
use switch_v.Common.{ℕ, ◌≡◌, refl, true, false, ◌||◌, none, if◌then◌else◌}
use switch_v.Common.Outcome.{ok}
use switch_v.Cpu.Run.{cleared, vcore_init}
use switch_v.Cthread.{
  Cthread, started, halted, continue_pending, start_s, stop_s, halt_s, hsm_stop, state_of,
  is_halted, is_halt_pending, cthread_signal_hsm, cthread_signal_continue, cthread_get_hsm_state,
  cthread_init, cthread_get_state,
}
use switch_v.Cthread.Fsm.{inited, signalled, resumed, Reached-continue, continue-signal_hsm}
use switch_v.ThreadsMgr.{
  Ctx, Cthreads, all_halted, threads_mgr_are_halted, threads_mgr_continue_cores,
}
use switch_v.ThreadsMgr.Laws.{first, threads_mgr_continue_cores_lem}

abbrev halted_thread : Cthread
halted_thread = record { state = halted; signal = halt_s; old_signal = start_s; core = cleared }

new_thread : cthread_init true started none ≡ ok halted_thread
unfolding cthread_init vcore_init
new_thread = refl

Reached-continue_example :
    (u : Cthread) × (cthread_signal_continue (cthread_signal_hsm hsm_stop halted_thread) ≡ ok u)
    × (u ≡ (
        if is_halted (cthread_signal_hsm hsm_stop halted_thread).state
          || is_halt_pending (cthread_signal_hsm hsm_stop halted_thread).state
        then resumed (cthread_signal_hsm hsm_stop halted_thread)
        else cthread_signal_hsm hsm_stop halted_thread))
Reached-continue_example =
    Reached-continue (cthread_signal_hsm hsm_stop halted_thread)
      (signalled hsm_stop halted_thread (inited true started none halted_thread new_thread))

continue-signal_hsm_example :
    (cthread_get_hsm_state halted_thread ≡ started)
    × (cthread_signal_hsm hsm_stop halted_thread ≡ record halted_thread { old_signal = stop_s })
    × (cthread_get_hsm_state (cthread_signal_hsm hsm_stop halted_thread) ≡ state_of stop_s)
    × (u : Cthread) × (cthread_signal_continue (cthread_signal_hsm hsm_stop halted_thread) ≡ ok u)
    × (u.state ≡ continue_pending)
    × (u.signal ≡ stop_s)
    × (u.core.atomic_exit_loop ≡ true)
continue-signal_hsm_example = continue-signal_hsm hsm_stop halted_thread refl refl refl

abbrev two : Ctx
two = record { cores = 2; debug = true; memory_size = 64 }

threads_mgr_continue_cores_lem_example :
    (after : Cthreads) × (threads_mgr_continue_cores false two (λ _. halted_thread) ≡ ok after)
    × ((i : ℕ) → after i ≡ first 2 resumed (λ _. halted_thread) i)
unfolding threads_mgr_are_halted all_halted cthread_get_state
threads_mgr_continue_cores_lem_example =
    threads_mgr_continue_cores_lem two (λ _. halted_thread) (λ i. refl) refl
