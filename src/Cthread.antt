-- ===== src/Cthread.antt =====
-- A core's thread, src/cthread.c and src/cthread.h: its state, the signal that it has been sent, and
-- the signal to go back to after debugging. Each operation here holds `cthread->mutex` from its
-- first read to its last write, and so is one step. Cthread.Thread has the two that wait on a
-- condition, `cthread_signal_step` and `cthread_fsm`.
use switch_v.Common.{ℕ, Bool, true, false, not, ◌&&◌, ◌||◌, Option, none, some, if◌then◌else◌}
use switch_v.Common.Outcome.{Outcome, ok, stop, exits, aborts, ◌>>=◌}
use switch_v.Cpu.State.{VCore}
use switch_v.Cpu.Run.{VCoreInit, vcore_init}
pub mod Fsm
pub mod Thread

-- `cthread_state`. The first seven are those of the SBI HSM extension.
pub data CthreadState : Type 0 where
  started stopped start_pending stop_pending suspended suspend_pending resume_pending : CthreadState
  halted stepping halt_pending continue_pending : CthreadState

-- `cthread_signal`.
pub data CthreadSignal : Type 0 where
  start_s stop_s suspend_s halt_s step_s : CthreadSignal

-- The signals that `cthread_signal_hsm` is called with.
pub data HsmSignal : Type 0 where
  hsm_start hsm_stop hsm_suspend : HsmSignal

abbrev pub of_hsm : HsmSignal → CthreadSignal
of_hsm hsm_start = start_s
of_hsm hsm_stop = stop_s
of_hsm hsm_suspend = suspend_s

-- `(cthread_state) signal`: the numbers of the two enumerations agree.
abbrev pub state_of : CthreadSignal → CthreadState
state_of start_s = started
state_of stop_s = stopped
state_of suspend_s = suspended
state_of halt_s = halted
state_of step_s = stepping

-- The number of a state.
unfoldable pub state_code : CthreadState → ℕ
state_code started = 0
state_code stopped = 1
state_code start_pending = 2
state_code stop_pending = 3
state_code suspended = 4
state_code suspend_pending = 5
state_code resume_pending = 6
state_code halted = 7
state_code stepping = 8
state_code halt_pending = 10
state_code continue_pending = 11

abbrev pub is_started : CthreadState → Bool
is_started started = true
is_started _ = false

abbrev pub is_stopped : CthreadState → Bool
is_stopped stopped = true
is_stopped _ = false

abbrev pub is_suspended : CthreadState → Bool
is_suspended suspended = true
is_suspended _ = false

abbrev pub is_halted : CthreadState → Bool
is_halted halted = true
is_halted _ = false

abbrev pub is_halt_pending : CthreadState → Bool
is_halt_pending halt_pending = true
is_halt_pending _ = false

-- The states in which the debugger has the core.
abbrev pub is_debugged : CthreadState → Bool
is_debugged halted = true
is_debugged halt_pending = true
is_debugged continue_pending = true
is_debugged stepping = true
is_debugged _ = false

abbrev pub is_start_s : CthreadSignal → Bool
is_start_s start_s = true
is_start_s _ = false

abbrev pub is_stop_or_suspend_s : CthreadSignal → Bool
is_stop_or_suspend_s stop_s = true
is_stop_or_suspend_s suspend_s = true
is_stop_or_suspend_s _ = false

abbrev pub is_debug_s : CthreadSignal → Bool
is_debug_s halt_s = true
is_debug_s step_s = true
is_debug_s _ = false

pub record Cthread : Type 0 where
  pub state : CthreadState
  pub signal : CthreadSignal
  pub old_signal : CthreadSignal
  pub core : VCore

-- `__atomic_store_n(&cthread->core.atomic_exit_loop, flag)`.
abbrev pub store_exit : Cthread → Bool → Cthread
store_exit t flag = record t { core = record t.core { atomic_exit_loop = flag } }

-- The three results of the first `switch` of `cthread_signal_hsm`.
abbrev pub hsm_save : HsmSignal → Cthread → Bool
hsm_save hsm_start t = is_stop_or_suspend_s t.old_signal
hsm_save _ t = is_start_s t.old_signal

abbrev pub hsm_leave : HsmSignal → Cthread → Bool
hsm_leave hsm_start t = not (is_stopped t.state) && not (is_suspended t.state)
hsm_leave _ t = not (is_started t.state)

abbrev pub hsm_next : HsmSignal → Cthread → CthreadState
hsm_next hsm_start t = if is_stopped t.state then start_pending else resume_pending
hsm_next hsm_stop t = stop_pending
hsm_next hsm_suspend t = suspend_pending

unfoldable pub cthread_signal_hsm : HsmSignal → Cthread → Cthread
cthread_signal_hsm s t =
    let buffered =
      if is_debugged t.state && hsm_save s t then record t { old_signal = of_hsm s } else t in
    if hsm_leave s t
    then buffered
    else store_exit
        (record buffered { signal = of_hsm s; old_signal = of_hsm s; state = hsm_next s t })
        (not (is_start_s (of_hsm s)))

-- `cthread_signal_start`, `cthread_signal_stop` and `cthread_signal_suspend`.
unfoldable pub cthread_signal_start : Cthread → Cthread
unfolding cthread_signal_hsm
cthread_signal_start t = cthread_signal_hsm hsm_start t

unfoldable pub cthread_signal_stop : Cthread → Cthread
unfolding cthread_signal_hsm
cthread_signal_stop t = cthread_signal_hsm hsm_stop t

unfoldable pub cthread_signal_suspend : Cthread → Cthread
unfolding cthread_signal_hsm
cthread_signal_suspend t = cthread_signal_hsm hsm_suspend t

unfoldable pub cthread_signal_continue : Cthread → Outcome Cthread
cthread_signal_continue t =
    if not (is_halted t.state) && not (is_halt_pending t.state)
    then ok t
    else if is_debug_s t.old_signal
    then stop aborts
    else ok (
        store_exit (record t { signal = t.old_signal; state = continue_pending })
          (not (is_start_s t.old_signal)))

unfoldable pub cthread_signal_halt : Cthread → Cthread
cthread_signal_halt t =
    if is_halted t.state || is_halt_pending t.state
    then t
    else store_exit (record t { signal = halt_s; state = halt_pending }) true

unfoldable pub cthread_get_state : Cthread → CthreadState
cthread_get_state t = t.state

-- HSM does not know the states of debugging: there the signal to go back to counts.
abbrev pub hsm_view : CthreadSignal → CthreadState → CthreadState
hsm_view old halted = state_of old
hsm_view old stepping = state_of old
hsm_view old halt_pending = state_of old
hsm_view old s = s

unfoldable pub cthread_get_hsm_state : Cthread → CthreadState
cthread_get_hsm_state t = hsm_view t.old_signal t.state

-- The states in which `emu_sbi_call` of src/supervisor/sbi.c refuses HART_START.
abbrev pub is_started_or_pending : CthreadState → Bool
is_started_or_pending started = true
is_started_or_pending start_pending = true
is_started_or_pending _ = false

-- The state that a core is given is that before debugging: it starts halted, and runs by
-- `cthread_signal_continue`. `conds` says whether the last condition variable was created.
abbrev pub init_signal : CthreadState → Option CthreadSignal
init_signal started = some start_s
init_signal stopped = some stop_s
init_signal suspended = some suspend_s
init_signal _ = none

abbrev pub halted_with : Bool → Option VCoreInit → Option CthreadSignal → Outcome Cthread
halted_with conds init none = stop (exits 1)
halted_with conds init (some old) =
    if conds
    then ok (record { state = halted; signal = halt_s; old_signal = old; core = vcore_init init })
    else stop (exits 1)

unfoldable pub cthread_init : Bool → CthreadState → Option VCoreInit → Outcome Cthread
cthread_init conds state init = halted_with conds init (init_signal state)
