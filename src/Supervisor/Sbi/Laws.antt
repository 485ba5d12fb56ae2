-- ===== src/Supervisor/Sbi/Laws.antt =====
-- What an SBI call of src/supervisor/sbi.c gives its caller and does to the other harts.
use switch_v.Common.{ℕ, ◌<◌, ◌≡◌, ◌≢◌, ap, ◌∙◌, arith}
use switch_v.Common.{true, false, some, leb, ◌==◌, if◌then◌else◌, update, update-update}
use switch_v.Common.Outcome.{ok}
use switch_v.Cpu.Reg
use switch_v.Cpu.State.{set_reg, Machine, reg, write}
use switch_v.Cpu.Run.{VCoreInit, vcore_init}
use switch_v.Cthread.{
  Cthread, is_started_or_pending, stopped, start_pending, start_s, store_exit,
  cthread_get_hsm_state, cthread_signal_hsm, cthread_signal_start,
}
use switch_v.Supervisor.World.{World, give_back, on_threads}
use switch_v.Supervisor.Sbi.{
  base_eid, hsm_eid, sbi_success, succeed, is_supported, base_ext, hart_init, reset_core,
  hart_start, hsm_ext, emu_sbi_call,
}

-- Probing for an extension reports success in A0 and nothing else: what the loop over the supported
-- extensions has found is overwritten, so that a supported extension and another give the same.
pub emu_sbi_call-probe :
    (m : Machine World)
    → reg m Reg.a7 ≡ base_eid
    → reg m Reg.a6 ≡ 3
    → emu_sbi_call m ≡ ok (write m Reg.a0 sbi_success)
unfolding emu_sbi_call base_ext
emu_sbi_call-probe m eid fid =
    let found = if is_supported (reg m Reg.a0) then 1 else 0 in
    rw (eid, fid)
      (ap (λ (regs : ℕ → ℕ). ok (record m { core = record m.core { regs = regs } }))
        (update-update m.core.regs Reg.a0 found sbi_success))

start_stopped :
    (t : Cthread)
    → t.state ≡ stopped
    → cthread_signal_start t
      ≡ store_exit
          (record t { signal = start_s; old_signal = start_s; state = start_pending })
          false
unfolding cthread_signal_start cthread_signal_hsm
start_stopped t h = rw h

-- The thread of a hart that HART_START has started.
abbrev pub woken : Cthread → VCoreInit → Cthread
woken t init = record t {
  core = vcore_init (some init);
  signal = start_s;
  old_signal = start_s;
  state = start_pending;
}

woken_lem :
    (t : Cthread) (init : VCoreInit)
    → t.state ≡ stopped
    → cthread_signal_start (reset_core t init) ≡ woken t init
unfolding vcore_init
woken_lem t init h = start_stopped (reset_core t init) h

give_back-other :
    (m : Machine World) (i : ℕ) → i ≢ m.world.self → give_back m i ≡ m.world.cthreads i
give_back-other m i h = ground arith

-- An operation on the thread of another core leaves the caller's registers alone.
on_threads-other :
    (m : Machine World) (i : ℕ) (f : Cthread → Cthread)
    → i ≢ m.world.self
    → on_threads m (λ ts. update ts i (f (ts i))) ≡ record m {
      world = record m.world { cthreads = update (give_back m) i (f (m.world.cthreads i)) };
    }
on_threads-other m i f h =
    let there : (i == m.world.self) ≡ false = ground arith in
    let back : (m.world.self == i) ≡ false = ground arith in
    let same : (m.world.self == m.world.self) ≡ true = ground arith in rw (there, back, same)

-- HART_START of another hart that is stopped, at an address in memory, reports success, gives that
-- hart's core the address, the number and the third argument and the registers of a reset
-- otherwise, signals its thread to start, and changes no other thread.
pub emu_sbi_call-hart_start :
    (m : Machine World)
    → reg m Reg.a7 ≡ hsm_eid
    → reg m Reg.a6 ≡ 0
    → reg m Reg.a0 < m.world.ctx.cores
    → reg m Reg.a0 ≢ m.world.self
    → reg m Reg.a1 < m.world.ctx.memory_size
    → (m.world.cthreads (reg m Reg.a0)).state ≡ stopped
    → emu_sbi_call m
      ≡ ok (record m {
        core = set_reg m.core Reg.a0 sbi_success;
        world = record m.world {
          cthreads = update (give_back m) (reg m Reg.a0) (
              woken
                (m.world.cthreads (reg m Reg.a0))
                (hart_init (reg m Reg.a1) (reg m Reg.a0) (reg m Reg.a2)));
        };
      })
unfolding emu_sbi_call hsm_ext hart_start cthread_get_hsm_state
emu_sbi_call-hart_start m eid fid valid other inside off =
    let i = reg m Reg.a0 in
    let init = hart_init (reg m Reg.a1) i (reg m Reg.a2) in
    let known : leb m.world.ctx.cores (reg m Reg.a0) ≡ false = ground arith in
    let mapped : leb m.world.ctx.memory_size (reg m Reg.a1) ≡ false = ground arith in
    let free : is_started_or_pending (cthread_get_hsm_state (give_back m (reg m Reg.a0))) ≡ false =
      not_busy in
    let changed = on_threads-other m i (λ t. cthread_signal_start (reset_core t init)) other in
    rw (eid, fid, known, mapped, free)
      (ap (λ (x : Machine World). ok (succeed x)) changed
        ∙ rw (woken_lem (m.world.cthreads (reg m Reg.a0)) init off))
  where
    not_busy : is_started_or_pending (cthread_get_hsm_state (give_back m (reg m Reg.a0))) ≡ false
    not_busy = rw (give_back-other m (reg m Reg.a0) other, off)
