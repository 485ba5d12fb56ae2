-- ===== src/Cthread/Fsm.antt =====
-- The signals of src/cthread.c in sequence: what debugging does to the states that the HSM
-- extension sees.
use switch_v.Common.{◌≡◌, refl, Bool, true, false, not, ◌||◌, if◌then◌else◌, inl, inr, Bool-cases}
use switch_v.Common.{Option, ap, ◌∙◌, arith}
use switch_v.Common.Outcome.{ok, Holds, Holds_elim}
use switch_v.Cpu.State.{VCore}
use switch_v.Cpu.Run.{VCoreInit}
use switch_v.Cthread.{
  CthreadState, started, stopped, start_pending, stop_pending, suspended, suspend_pending,
  resume_pending, halted, stepping, halt_pending, continue_pending, CthreadSignal, start_s, halt_s,
  HsmSignal, hsm_start, hsm_stop, hsm_suspend, of_hsm, Cthread, is_debug_s, is_start_s, state_of,
  is_halted, is_halt_pending, store_exit, cthread_signal_hsm, cthread_signal_continue,
  cthread_signal_halt, cthread_get_hsm_state, cthread_init,
}

-- The threads that signals make of a new one. Between two signals the thread itself and the core
-- that it runs may change everything but the signal to go back to, which only the operations here
-- write.
pub data Reached : Cthread → Type 0 where
  inited :
      (conds : Bool) (state : CthreadState) (init : Option VCoreInit) (t : Cthread)
      → cthread_init conds state init ≡ ok t
      → Reached t
  signalled : (s : HsmSignal) (t : Cthread) → Reached t → Reached (cthread_signal_hsm s t)
  halted_by : (t : Cthread) → Reached t → Reached (cthread_signal_halt t)
  continued : (t u : Cthread) → Reached t → cthread_signal_continue t ≡ ok u → Reached u
  moved :
      (t : Cthread) (state : CthreadState) (signal : CthreadSignal) (core : VCore)
      → Reached t
      → Reached (record t { state = state; signal = signal; core = core })

-- The signal to go back to is one of the three of the HSM extension.
abbrev pub IsSaved : Cthread → Type 0
IsSaved t = is_debug_s t.old_signal ≡ false

hsm-IsSaved : (s : HsmSignal) → is_debug_s (of_hsm s) ≡ false
hsm-IsSaved hsm_start = refl
hsm-IsSaved hsm_stop = refl
hsm-IsSaved hsm_suspend = refl

init-IsSaved :
    (conds : Bool) (state : CthreadState) (init : Option VCoreInit)
    → Holds IsSaved (cthread_init conds state init)
unfolding cthread_init
init-IsSaved true started init = refl
init-IsSaved true stopped init = refl
init-IsSaved true suspended init = refl
init-IsSaved false started init = tt
init-IsSaved false stopped init = tt
init-IsSaved false suspended init = tt
init-IsSaved conds start_pending init = tt
init-IsSaved conds stop_pending init = tt
init-IsSaved conds suspend_pending init = tt
init-IsSaved conds resume_pending init = tt
init-IsSaved conds halted init = tt
init-IsSaved conds stepping init = tt
init-IsSaved conds halt_pending init = tt
init-IsSaved conds continue_pending init = tt

signal_hsm-IsSaved : (s : HsmSignal) (t : Cthread) → IsSaved t → IsSaved (cthread_signal_hsm s t)
unfolding cthread_signal_hsm
signal_hsm-IsSaved s t h = ground (arith, hsm-IsSaved s)

signal_halt-IsSaved : (t : Cthread) → IsSaved t → IsSaved (cthread_signal_halt t)
unfolding cthread_signal_halt
signal_halt-IsSaved t h = ground arith

-- What a continue leaves, of a thread that the debugger has.
abbrev pub resumed : Cthread → Cthread
resumed t =
    store_exit (record t { signal = t.old_signal; state = continue_pending })
      (not (is_start_s t.old_signal))

signal_continue-IsSaved : (t u : Cthread) → IsSaved t → cthread_signal_continue t ≡ ok u → IsSaved u
unfolding cthread_signal_continue
signal_continue-IsSaved t u h e = ground arith

-- A thread that is halted, or is to halt, is resumed.
pub continue_lem :
    (t : Cthread)
    → IsSaved t
    → is_halted t.state || is_halt_pending t.state ≡ true
    → cthread_signal_continue t ≡ ok (resumed t)
unfolding cthread_signal_continue
continue_lem t h had = ground arith

halt-same :
    (t : Cthread) → is_halted t.state || is_halt_pending t.state ≡ true → cthread_signal_halt t ≡ t
unfolding cthread_signal_halt
halt-same t had = rw had

halt-moves :
    (t : Cthread)
    → is_halted t.state || is_halt_pending t.state ≡ false
    → cthread_signal_halt t ≡ store_exit (record t { signal = halt_s; state = halt_pending }) true
unfolding cthread_signal_halt
halt-moves t free = rw free

-- Sending halt and then continue to a thread, in any state, leaves it continuing with the signal it
-- is to go back to, its exit flag set exactly if that is not start, and nothing else changed.
pub continue-halt :
    (t : Cthread)
    → is_debug_s t.old_signal ≡ false
    → cthread_signal_continue (cthread_signal_halt t) ≡ ok (resumed t)
continue-halt t h = elim (Bool-cases (is_halted t.state || is_halt_pending t.state)) [
  | inl had ↦ ap cthread_signal_continue (halt-same t had) ∙ continue_lem t h had
  | inr free ↦ ap cthread_signal_continue (halt-moves t free) ∙ continue_lem _ h refl
]

buffered :
    (s : HsmSignal) (t : Cthread)
    → t.state ≡ halted
    → t.old_signal ≡ start_s
    → is_start_s (of_hsm s) ≡ false
    → cthread_signal_hsm s t ≡ record t { old_signal = of_hsm s }
unfolding cthread_signal_hsm
buffered hsm_start t at old kind = cc
buffered hsm_stop t at old kind = rw (at, old)
buffered hsm_suspend t at old kind = rw (at, old)

continue-buffered :
    (s : HsmSignal) (t : Cthread)
    → t.state ≡ halted
    → is_start_s (of_hsm s) ≡ false
    → (u : Cthread) × (cthread_signal_continue (record t { old_signal = of_hsm s }) ≡ ok u)
      × (u.state ≡ continue_pending)
      × (u.signal ≡ of_hsm s)
      × (u.core.atomic_exit_loop ≡ true)
continue-buffered s t at kind = (
  resumed (record t { old_signal = of_hsm s }),
  continue_lem _ (hsm-IsSaved s) (rw at),
  refl,
  refl,
  rw kind,
)

-- Stop or suspend, sent to a started core that the debugger has halted, is seen at once by the HSM
-- extension but changes nothing else of the thread: it takes effect when the core is continued, with
-- the exit flag set.
pub continue-signal_hsm :
    (s : HsmSignal) (t : Cthread)
    → t.state ≡ halted
    → t.old_signal ≡ start_s
    → is_start_s (of_hsm s) ≡ false
    → (cthread_get_hsm_state t ≡ started)
      × (cthread_signal_hsm s t ≡ record t { old_signal = of_hsm s })
      × (cthread_get_hsm_state (cthread_signal_hsm s t) ≡ state_of (of_hsm s))
      × (u : Cthread) × (cthread_signal_continue (cthread_signal_hsm s t) ≡ ok u)
      × (u.state ≡ continue_pending)
      × (u.signal ≡ of_hsm s)
      × (u.core.atomic_exit_loop ≡ true)
unfolding cthread_get_hsm_state
continue-signal_hsm s t at old kind =
    let after = buffered s t at old kind in
    let ran = continue-buffered s t at kind in
    (
      rw (at, old),
      after,
      ap cthread_get_hsm_state after ∙ rw at,
      ran.0,
      ap cthread_signal_continue after ∙ ran.1,
      ran.2,
      ran.3,
      ran.4,
    )

Reached-IsSaved : (t : Cthread) → Reached t → IsSaved t
Reached-IsSaved _ (inited conds state init t e) =
    Holds_elim IsSaved _ t (init-IsSaved conds state init) e
Reached-IsSaved _ (signalled s t r) = signal_hsm-IsSaved s t (Reached-IsSaved t r)
Reached-IsSaved _ (halted_by t r) = signal_halt-IsSaved t (Reached-IsSaved t r)
Reached-IsSaved _ (continued t u r e) = signal_continue-IsSaved t u (Reached-IsSaved t r) e
Reached-IsSaved _ (moved t state signal core r) = Reached-IsSaved t r

-- In every history of signals, the assertion of `cthread_signal_continue` holds: the call never
-- aborts, and it resumes a thread that is halted or is to halt.
pub Reached-continue :
    (t : Cthread)
    → Reached t
    → (u : Cthread) × (cthread_signal_continue t ≡ ok u)
      × (u ≡ (if is_halted t.state || is_halt_pending t.state then resumed t else t))
unfolding cthread_signal_continue
Reached-continue t r =
    let saved : is_debug_s t.old_signal ≡ false = Reached-IsSaved t r in
    elim (Bool-cases (is_halted t.state || is_halt_pending t.state)) [
      | inl had ↦ (resumed t, continue_lem t saved had, rw had)
      | inr free ↦ (t, ground arith, rw free)
    ]
