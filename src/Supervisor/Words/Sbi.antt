-- ===== src/Supervisor/Words/Sbi.antt =====
-- The SBI calls keep words words, in the calling core and in the cores that they start.
use switch_v.Common.{ℕ, zero, suc, ◌^◌, ◌<◌, ◌≡◌, arith}
use switch_v.Common.{Bool, true, false, ◌||◌, some, ltb, leb, ◌==◌, if◌then◌else◌, update}
use switch_v.Common.Outcome.{Holds, Holds-if}
use switch_v.Cpu.Reg
use switch_v.Cpu.State.{Machine, reg, write}
use switch_v.Cpu.Run.{VCoreInit, vcore_init}
use switch_v.Cpu.Invariant.{IsCore, write-IsMachine}
use switch_v.Cthread.{
  Cthread, HsmSignal, cthread_signal_hsm, cthread_signal_start, cthread_signal_stop,
  cthread_signal_suspend, cthread_signal_halt,
}
use switch_v.ThreadsMgr.{Ctx, Cthreads, each_core, threads_mgr_halt_cores}
use switch_v.Supervisor.World.{World, give_back, on_threads}
use switch_v.Cthread.{is_started_or_pending}
use switch_v.Supervisor.Sbi.{
  base_ext, hart_start, hart_stop, hart_get_status, hart_suspend, hsm_ext, emu_sbi_call, reset_core,
  hart_init, succeed, is_supported, err_not_supported, err_invalid_param, err_invalid_address,
  err_already_available, base_eid, hsm_eid,
}
use switch_v.Cthread.{
  CthreadState, state_code, cthread_get_hsm_state, hsm_start, hsm_stop, hsm_suspend,
}
use switch_v.Common.{Bool-cases, inl, inr, ap}
use switch_v.Supervisor.Words.Defs.{IsWorld, Kept}

abbrev pub AllCores : Cthreads → Type 0
AllCores ts = (i : ℕ) → IsCore (ts i).core

-- An operation on one thread that leaves the registers and the reserved word of its core alone.
abbrev pub SameWords : Cthread → Cthread → Type 0
SameWords t t' =
    (t'.core.regs ≡ t.core.regs)
    × (t'.core.reserved ≡ t.core.reserved)
    × (t'.core.elf_brk ≡ t.core.elf_brk)

SameWords-IsCore : (t t' : Cthread) → SameWords t t' → IsCore t.core → IsCore t'.core
SameWords-IsCore t t' e c = record {
  word = λ i.
      let at : t'.core.regs i ≡ t.core.regs i = ap (λ (f : ℕ → ℕ). f i) e.0 in
      omega (arith, c.word i);
  kept = omega (arith, e.1, c.kept);
  brk = omega (arith, e.2, c.brk);
}

signal_hsm-SameWords : (s : HsmSignal) (t : Cthread) → SameWords t (cthread_signal_hsm s t)
unfolding cthread_signal_hsm
signal_hsm-SameWords s t = ground arith

signal_halt-SameWords : (t : Cthread) → SameWords t (cthread_signal_halt t)
unfolding cthread_signal_halt
signal_halt-SameWords t = ground arith

update-AllCores :
    (ts : Cthreads) (i : ℕ) (t : Cthread) → AllCores ts → IsCore t.core → AllCores (update ts i t)
update-AllCores ts i t all c j = elim (Bool-cases (j == i)) [
  | inl e ↦ rw e c
  | inr e ↦ rw e (all j)
]

each_halted-AllCores :
    (n : ℕ) (ts : Cthreads) → AllCores ts → AllCores (each_core cthread_signal_halt n ts)
unfolding each_core
each_halted-AllCores zero ts all = all
each_halted-AllCores (suc n) ts all =
    let before = each_halted-AllCores n ts all in
    let t : Cthread = each_core cthread_signal_halt n ts n in
    update-AllCores (each_core cthread_signal_halt n ts) n (cthread_signal_halt t) before
      (SameWords-IsCore t (cthread_signal_halt t) (signal_halt-SameWords t) (before n))

pub halt_cores-AllCores :
    (ctx : Ctx) (ts : Cthreads) → AllCores ts → AllCores (threads_mgr_halt_cores ctx ts)
unfolding threads_mgr_halt_cores
halt_cores-AllCores ctx ts all = each_halted-AllCores ctx.cores ts all

state_code-lt : (s : CthreadState) → state_code s < 2 ^ 32
unfolding state_code
state_code-lt s = ground arith

module _ (m : Machine World) (w : Kept m) where
  give_back-AllCores : AllCores (give_back m)
  give_back-AllCores = update-AllCores m.world.cthreads m.world.self _ w.world.cores w.core

  pub on_threads-Kept :
      (op : Cthreads → Cthreads)
      → ((ts : Cthreads) → AllCores ts → AllCores (op ts))
      → Kept (on_threads m op)
  on_threads-Kept op keep =
      let all = keep (give_back m) give_back-AllCores in
      record { core = all m.world.self; bytes = w.bytes; world = record { cores = all } }

  a0-Kept : (v : ℕ) → v < 2 ^ 32 → Kept (write m Reg.a0 v)
  a0-Kept v h = write-IsMachine IsWorld m Reg.a0 v w h

succeed-Kept : (m : Machine World) → Kept m → Kept (succeed m)
succeed-Kept m w = a0-Kept m w 0 (omega arith)

vcore_init-IsCore :
    (init : VCoreInit)
    → init.pc < 2 ^ 32
    → init.sp < 2 ^ 32
    → init.id < 2 ^ 32
    → init.opaque < 2 ^ 32
    → init.gp < 2 ^ 32
    → init.elf_brk < 2 ^ 32
    → IsCore (vcore_init (some init))
unfolding vcore_init
vcore_init-IsCore init a b c d e f = record {
  word = λ i. ground arith;
  kept = omega arith;
  brk = f;
}

-- A thread that is sent a signal, at its index of the array.
signalled-AllCores :
    (s : HsmSignal) (i : ℕ) (ts : Cthreads) (t : Cthread)
    → AllCores ts
    → IsCore t.core
    → AllCores (update ts i (cthread_signal_hsm s t))
signalled-AllCores s i ts t all c =
    update-AllCores ts i (cthread_signal_hsm s t) all
      (SameWords-IsCore t (cthread_signal_hsm s t) (signal_hsm-SameWords s t) c)

choose-Kept : (b : Bool) (x y : Machine World) → Kept x → Kept y → Kept (if b then x else y)
choose-Kept true x y h k = h
choose-Kept false x y h k = k

base_ext-Kept : (m : Machine World) → Kept m → Kept (base_ext m)
unfolding base_ext
base_ext-Kept m w =
    choose-Kept (fid == 0) _ _ (succeed-Kept _ (write-IsMachine IsWorld m Reg.a1 _ w (omega arith)))
      (choose-Kept (fid == 3) _ _
        (succeed-Kept _ (a0-Kept m w (if is_supported (reg m Reg.a0) then 1 else 0) (ground arith)))
        (choose-Kept (fid == 1 || fid == 2 || fid == 4 || fid == 5 || fid == 6) _ _
          (succeed-Kept _ (write-IsMachine IsWorld m Reg.a1 0 w (omega arith)))
          (a0-Kept m w err_not_supported (omega arith))))
  where
    fid : ℕ
    fid = reg m Reg.a6

module _ (m : Machine World) (w : Kept m) where
  hart : ℕ
  hart = reg m Reg.a0

  init : VCoreInit
  init = hart_init (reg m Reg.a1) (reg m Reg.a0) (reg m Reg.a2)

  init-IsCore : IsCore (vcore_init (some init))
  unfolding init
  init-IsCore =
      vcore_init-IsCore (hart_init (reg m Reg.a1) (reg m Reg.a0) (reg m Reg.a2))
        (w.core.word Reg.a1) (omega arith) (w.core.word Reg.a0) (w.core.word Reg.a2) (omega arith)
        (omega arith)

  hart_start-Kept : Kept (hart_start m)
  unfolding hart_start cthread_signal_start hart init
  hart_start-Kept =
      choose-Kept (leb m.world.ctx.cores hart) _ _ (a0-Kept m w err_invalid_param (omega arith)) (
        choose-Kept (leb m.world.ctx.memory_size (reg m Reg.a1)) _ _
          (a0-Kept m w err_invalid_address (omega arith))
          (choose-Kept (is_started_or_pending (cthread_get_hsm_state (give_back m hart))) _ _
            (a0-Kept m w err_already_available (omega arith))
            (succeed-Kept _ (
              on_threads-Kept m w
                (λ t. update t hart (cthread_signal_hsm hsm_start (reset_core (t hart) init)))
                (λ ts all.
                  signalled-AllCores hsm_start hart ts (reset_core (ts hart) init) all
                    init-IsCore)))))

  signalled-Kept :
      (s : HsmSignal) (i : ℕ)
      → Kept (succeed (on_threads m (λ t. update t i (cthread_signal_hsm s (t i)))))
  signalled-Kept s i = succeed-Kept _ (
      on_threads-Kept m w (λ t. update t i (cthread_signal_hsm s (t i)))
        (λ ts all. signalled-AllCores s i ts (ts i) all (all i)))

  hart_get_status-Kept : Kept (hart_get_status m)
  unfolding hart_get_status hart
  hart_get_status-Kept =
      choose-Kept (leb m.world.ctx.cores hart) _ _ (a0-Kept m w err_invalid_param (omega arith)) (
        succeed-Kept _ (
          write-IsMachine IsWorld m Reg.a1 _ w
            (state_code-lt (cthread_get_hsm_state (give_back m hart)))))

  hart_suspend-Kept : Holds Kept (hart_suspend m)
  unfolding hart_suspend cthread_signal_suspend hart init
  hart_suspend-Kept =
      Holds-if Kept (leb m.world.ctx.memory_size (reg m Reg.a1)) _ _
        (a0-Kept m w err_invalid_address (omega arith))
        (Holds-if Kept (hart == 0) _ _
          (Holds-if Kept (ltb hart m.world.ctx.cores) _ _ (signalled-Kept hsm_suspend hart) tt)
          (Holds-if Kept (hart == 0x80000000) _ _
            (Holds-if Kept (ltb hart m.world.ctx.cores) _ _
              (succeed-Kept _ (
                on_threads-Kept m w (λ t. update t hart (reset_core (t hart) init))
                  (λ ts all. update-AllCores ts hart (reset_core (ts hart) init) all init-IsCore)))
              tt)
            (a0-Kept m w err_invalid_param (omega arith))))

  hart_stop-Kept : Holds Kept (hart_stop m)
  unfolding hart_stop cthread_signal_stop
  hart_stop-Kept =
      Holds-if Kept (ltb m.core.core_idx m.world.ctx.cores) _ _
        (signalled-Kept hsm_stop m.core.core_idx) tt

  hsm_ext-Kept : Holds Kept (hsm_ext m)
  unfolding hsm_ext
  hsm_ext-Kept = Holds-if Kept (reg m Reg.a6 == 0) _ _ hart_start-Kept (
      Holds-if Kept (reg m Reg.a6 == 1) _ _ hart_stop-Kept (
        Holds-if Kept (reg m Reg.a6 == 2) _ _ hart_get_status-Kept (
          Holds-if Kept (reg m Reg.a6 == 3) _ _ hart_suspend-Kept
            (a0-Kept m w err_not_supported (omega arith)))))

  pub emu_sbi_call-Kept : Holds Kept (emu_sbi_call m)
  unfolding emu_sbi_call
  emu_sbi_call-Kept = Holds-if Kept (reg m Reg.a7 == base_eid) _ _ (base_ext-Kept m w) (
      Holds-if Kept (reg m Reg.a7 == hsm_eid) _ _ hsm_ext-Kept
        (a0-Kept m w err_not_supported (omega arith)))
