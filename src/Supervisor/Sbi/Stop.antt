-- ===== src/Supervisor/Sbi/Stop.antt =====
-- A core that stops itself by HART_STOP: from the instruction (src/cpu.c) over the SBI call
-- (src/supervisor/sbi.c) to the thread that waits (src/cthread.c).
use switch_v.Common.{ℕ, ◌<◌, ltb, ◌≡◌, ◌≢◌, refl, ap, ◌∙◌, arith}
use switch_v.Common.{Bool, true, ◌||◌, List, ◌∷◌, ◌==◌, update}
use switch_v.Common.Word.{add32}
use switch_v.Common.Outcome.{ok}
use switch_v.Memory.{mem_rw}
use switch_v.Cpu.Reg
use switch_v.Cpu.Decode.{opcode_type, func, i_imm}
use switch_v.Cpu.State.{VCore, Machine, reg, supervisor_mode}
use switch_v.Cpu.Instructions.{advance}
use switch_v.Cpu.Run.{returned, execute, iterate, vcore_run}
use switch_v.Cpu.Round.{reset, round}
use switch_v.Cthread.{
  Cthread, started, stopped, stop_pending, stop_s, cthread_signal_stop, cthread_signal_hsm,
}
use switch_v.Cthread.Thread.{waiting, fsm_enter, fsm_relock, cthread_wait_on_sign}
use switch_v.Supervisor.World.{World, give_back, take_out, on_threads}
use switch_v.Supervisor.Sbi.{hsm_eid, succeed, hart_stop, hsm_ext, emu_sbi_call}
use switch_v.Supervisor.Trap.{is_supervisor}
use switch_v.Supervisor.Sys.{vcore_sys_type, env_type, supervisor}

-- The thread of the core that runs.
abbrev pub thread_of : Machine World → Cthread
thread_of m = give_back m m.world.self

abbrev with_exit : VCore → VCore
with_exit core = record core { atomic_exit_loop = true }

-- The thread of a core that has been told to stop.
abbrev told : Machine World → Cthread
told m = record (m.world.cthreads m.world.self) {
  core = with_exit m.core;
  state = stop_pending;
  signal = stop_s;
  old_signal = stop_s;
}

-- The state after the call.
abbrev stopping : Machine World → Machine World
stopping m = record m {
  core = record (with_exit m.core) { regs = update m.core.regs Reg.a0 0 };
  world = record m.world { cthreads = update (give_back m) m.world.self (told m) };
}

stops_started :
    (t : Cthread)
    → t.state ≡ started
    → cthread_signal_stop t ≡ record t {
      core = with_exit t.core;
      state = stop_pending;
      signal = stop_s;
      old_signal = stop_s;
    }
unfolding cthread_signal_stop cthread_signal_hsm
stops_started t h = rw h

abbrev stopped_at : Machine World → ℕ → Machine World
stopped_at m i = succeed (on_threads m (λ t. update t i (cthread_signal_stop (t i))))

stopped_at-self :
    (m : Machine World)
    → (m.world.cthreads m.world.self).state ≡ started
    → stopped_at m m.world.self ≡ stopping m
stopped_at-self m on =
    let same : (m.world.self == m.world.self) ≡ true = ground arith in
    let now : cthread_signal_stop (thread_of m) ≡ told m =
      rw same (stops_started (record (m.world.cthreads m.world.self) { core = m.core }) on) in
    ap (λ (t : Cthread). succeed (take_out m (update (give_back m) m.world.self t))) now ∙ rw same

emu_sbi_call-hart_stop :
    (m : Machine World)
    → reg m Reg.a7 ≡ hsm_eid
    → reg m Reg.a6 ≡ 1
    → m.core.core_idx ≡ m.world.self
    → m.world.self < m.world.ctx.cores
    → (m.world.cthreads m.world.self).state ≡ started
    → emu_sbi_call m ≡ ok (stopping m)
unfolding emu_sbi_call hsm_ext hart_stop
emu_sbi_call-hart_stop m eid fid own used on =
    let known : ltb m.core.core_idx m.world.ctx.cores ≡ true = ground arith in
    rw (eid, fid, known) (ap (λ (i : ℕ). ok (stopped_at m i)) own ∙ ap ok (stopped_at-self m on))

-- ECALL.
abbrev pub ecall_word : ℕ
ecall_word = 0x73

-- A round with ECALL in supervisor mode, for HART_STOP.
iterate-hart_stop :
    (m : Machine World)
    → mem_rw m.mem (reg m Reg.pc) ≡ ok ecall_word
    → m.core.mode ≡ supervisor_mode
    → reg m Reg.a7 ≡ hsm_eid
    → reg m Reg.a6 ≡ 1
    → m.core.core_idx ≡ m.world.self
    → m.world.self < m.world.ctx.cores
    → (m.world.cthreads m.world.self).state ≡ started
    → iterate supervisor m ≡ ok (advance (stopping (reset m)) 4)
unfolding execute supervisor vcore_sys_type env_type opcode_type func i_imm
iterate-hart_stop m fetch mode eid fid own used on =
    let super : is_supervisor m.core.mode ≡ true = ap is_supervisor mode in
    round supervisor m ecall_word fetch refl
    ∙ rw (super, emu_sbi_call-hart_stop (reset m) eid fid own used on)

-- A core of a SUPERVISOR build that executes ECALL in supervisor mode for HART_STOP, whose number
-- is that of its place in the array of threads, and whose thread is started, ends its `vcore_run` in that round, whatever other threads signal; its thread
-- then passes the assertion of its hot loop and comes to wait, stopped, for the signal to start.
-- A0 says that the call succeeded, the program counter is behind it, and the threads of the other
-- cores are as they were.
pub vcore_run-hart_stop :
    (m : Machine World) (s : Bool) (rest : List Bool)
    → mem_rw m.mem (reg m Reg.pc) ≡ ok ecall_word
    → m.core.mode ≡ supervisor_mode
    → reg m Reg.a7 ≡ hsm_eid
    → reg m Reg.a6 ≡ 1
    → m.core.core_idx ≡ m.world.self
    → m.world.self < m.world.ctx.cores
    → (m.world.cthreads m.world.self).state ≡ started
    → (m' : Machine World) × (vcore_run supervisor (s ∷ rest) m ≡ ok (returned m'))
      × (fsm_relock (thread_of m') ≡ ok (thread_of m'))
      × (fsm_enter (thread_of m') ≡ (waiting stop_s, record (thread_of m') { state = stopped }))
      × (reg m' Reg.a0 ≡ 0)
      × (reg m' Reg.pc ≡ add32 (reg m Reg.pc) 4)
      × ((i : ℕ) → i ≢ m.world.self → m'.world.cthreads i ≡ m.world.cthreads i)
unfolding vcore_run fsm_relock fsm_enter cthread_wait_on_sign
vcore_run-hart_stop m s rest fetch mode eid fid own used on =
    let same : (m.world.self == m.world.self) ≡ true = ground arith in
    let m' : Machine World = advance (stopping (reset m)) 4 in
    let flag : s || true ≡ true = ground arith in
    (
      m',
      simp (iterate-hart_stop m fetch mode eid fid own used on, flag),
      rw same refl,
      rw same refl,
      refl,
      refl,
      λ i other. ground arith,
    )
