-- ===== src/ThreadsMgr/Laws.antt =====
-- The loops over the cores of src/threads_mgr2.c reach every core in use and no other.
use switch_v.Common.{ℕ, zero, suc, ◌<◌, ◌≡◌, refl, ◌∙◌, arith}
use switch_v.Common.{true, false, if◌then◌else◌, update, ltb}
use switch_v.Common.Outcome.{ok}
use switch_v.Cthread.{
  Cthread, is_debug_s, is_halted, cthread_signal_halt, cthread_signal_continue, cthread_get_state,
}
use switch_v.Cthread.Fsm.{IsSaved, resumed, continue_lem}
use switch_v.ThreadsMgr.{
  Ctx, Cthreads, each_core, each_core_ok, all_halted, threads_mgr_halt_cores,
  threads_mgr_are_halted, threads_mgr_continue_cores,
}

-- The array after an operation on the first `n` cores.
abbrev pub first : ℕ → (Cthread → Cthread) → Cthreads → Cthreads
first n op ts i = if ltb i n then op (ts i) else ts i

each_core_lem :
    (op : Cthread → Cthread) (n : ℕ) (ts : Cthreads) (i : ℕ) → each_core op n ts i ≡ first n op ts i
unfolding each_core
each_core_lem op zero ts i = ground arith
each_core_lem op (suc n) ts i = ground (arith, each_core_lem op n ts i, each_core_lem op n ts n)

-- Halting the cores sends a halt to each core in use, once, and to no other: a core that was not
-- halted or to halt is to halt, with its exit flag set, and one that was is as before.
pub threads_mgr_halt_cores_lem :
    (ctx : Ctx) (ts : Cthreads) (i : ℕ)
    → (threads_mgr_halt_cores ctx ts i
        ≡ (if ltb i ctx.cores then cthread_signal_halt (ts i) else ts i))
unfolding threads_mgr_halt_cores
threads_mgr_halt_cores_lem ctx ts i = each_core_lem cthread_signal_halt ctx.cores ts i

all_halted-each :
    (n : ℕ) (ts : Cthreads) (i : ℕ) → all_halted n ts ≡ true → i < n → is_halted (ts i).state ≡ true
unfolding all_halted cthread_get_state
all_halted-each zero ts i h l = ground arith
all_halted-each (suc n) ts i h l = ground (arith, all_halted-each n ts i)

-- The cores after a continue of the first `n`, each of which was halted.
each_core_ok_lem :
    (n : ℕ) (ts : Cthreads)
    → ((i : ℕ) → IsSaved (ts i))
    → ((i : ℕ) → i < n → is_halted (ts i).state ≡ true)
    → (after : Cthreads) × (each_core_ok cthread_signal_continue n ts ≡ ok after)
      × ((i : ℕ) → after i ≡ first n resumed ts i)
unfolding each_core_ok
each_core_ok_lem zero ts saved each = (ts, refl, λ i. ground arith)
each_core_ok_lem (suc n) ts saved each =
    let before = each_core_ok_lem n ts saved (λ i l. each i (omega arith)) in
    let at_n : before.0 n ≡ ts n = before.2 n ∙ ground arith in
    let step = continue_lem (ts n) (saved n) (rw (each n (omega arith))) in
    (update before.0 n (resumed (ts n)), rw (before.1, at_n, step), λ i. ground (arith, before.2 i))

-- When every core in use is halted, and no other thread is halting or running them, continuing
-- the cores succeeds, resumes each core in use with the signal that it is to go back to, and leaves
-- the rest of the array alone.
pub threads_mgr_continue_cores_lem :
    (ctx : Ctx) (ts : Cthreads)
    → ((i : ℕ) → is_debug_s (ts i).old_signal ≡ false)
    → threads_mgr_are_halted ctx ts ≡ true
    → (after : Cthreads) × (threads_mgr_continue_cores false ctx ts ≡ ok after)
      × ((i : ℕ) → after i ≡ first ctx.cores resumed ts i)
unfolding threads_mgr_are_halted threads_mgr_continue_cores
threads_mgr_continue_cores_lem ctx ts saved all =
    let ran = each_core_ok_lem ctx.cores ts saved (λ i l. all_halted-each ctx.cores ts i all l) in
    (ran.0, rw (all, ran.1), ran.2)
