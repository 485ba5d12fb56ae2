-- ===== src/Supervisor/Sbi/Status.antt =====
-- What HART_GET_STATUS of src/supervisor/sbi.c answers of a hart that HART_START has started.
use switch_v.Common.{ℕ, ◌<◌, ◌≡◌, ◌≢◌, refl, ap, sym, ◌∙◌, arith}
use switch_v.Common.{true, false, leb, ◌==◌, update}
use switch_v.Common.Outcome.{Outcome, ok, stop}
use switch_v.Cpu.Reg
use switch_v.Cpu.State.{Machine, reg, write}
use switch_v.Cthread.{stopped, start_pending, state_code, cthread_get_hsm_state}
use switch_v.Supervisor.World.{World, give_back}
use switch_v.Supervisor.Sbi.{
  hsm_eid, sbi_success, hart_get_status, hart_init, hsm_ext, emu_sbi_call,
}
use switch_v.Supervisor.Sbi.Laws.{woken, emu_sbi_call-hart_start}

-- The answer for another hart that is about to start.
answers :
    (m : Machine World) (i : ℕ)
    → reg m Reg.a7 ≡ hsm_eid
    → reg m Reg.a6 ≡ 2
    → reg m Reg.a0 ≡ i
    → i < m.world.ctx.cores
    → i ≢ m.world.self
    → (m.world.cthreads i).state ≡ start_pending
    → emu_sbi_call m ≡ ok (write (write m Reg.a1 2) Reg.a0 sbi_success)
unfolding emu_sbi_call hsm_ext hart_get_status cthread_get_hsm_state state_code
answers m i eid fid hart few other pending =
    let known : leb m.world.ctx.cores i ≡ false = ground arith in
    let there : (i == m.world.self) ≡ false = ground arith in
    simp (eid, fid, hart, known, there, pending)

-- What the threads share after a HART_START.
abbrev started_world : Machine World → World
started_world m = record m.world {
  cthreads = update (give_back m) (reg m Reg.a0) (
      woken (m.world.cthreads (reg m Reg.a0))
        (hart_init (reg m Reg.a1) (reg m Reg.a0) (reg m Reg.a2)));
}

abbrev world_in : World → Outcome (Machine World) → World
world_in w (ok m) = m.world
world_in w (stop e) = w

-- When HART_START of another hart that is stopped, at an address in memory, has succeeded, then
-- HART_GET_STATUS of that hart, by the same core with whatever other registers and memory by then,
-- answers START_PENDING (2) and success, as long as no thread has moved.
pub hart_get_status-hart_start :
    (m m1 m2 : Machine World)
    → reg m Reg.a7 ≡ hsm_eid
    → reg m Reg.a6 ≡ 0
    → reg m Reg.a0 < m.world.ctx.cores
    → reg m Reg.a0 ≢ m.world.self
    → reg m Reg.a1 < m.world.ctx.memory_size
    → (m.world.cthreads (reg m Reg.a0)).state ≡ stopped
    → emu_sbi_call m ≡ ok m1
    → m2.world ≡ m1.world
    → reg m2 Reg.a7 ≡ hsm_eid
    → reg m2 Reg.a6 ≡ 2
    → reg m2 Reg.a0 ≡ reg m Reg.a0
    → emu_sbi_call m2 ≡ ok (write (write m2 Reg.a1 2) Reg.a0 sbi_success)
hart_get_status-hart_start m m1 m2 eid fid few other inside off called later eid2 fid2 hart =
    let i : ℕ = reg m Reg.a0 in
    let started = emu_sbi_call-hart_start m eid fid few other inside off in
    let world : m2.world ≡ started_world m = later ∙ ap (world_in m.world) (sym called ∙ started) in
    let cores : m2.world.ctx.cores ≡ m.world.ctx.cores = ap (λ (w : World). w.ctx.cores) world in
    let self : m2.world.self ≡ m.world.self = ap (λ (w : World). w.self) world in
    let same : (i == i) ≡ true = ground arith in
    let pending : ((started_world m).cthreads i).state ≡ start_pending = rw same refl in
    answers m2 i eid2 fid2 hart (omega arith) (λ e. other (e ∙ self))
      (ap (λ (w : World). (w.cthreads i).state) world ∙ pending)
