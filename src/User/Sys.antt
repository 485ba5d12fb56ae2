-- ===== src/User/Sys.antt =====
-- Traps and system instructions of a USER build, src/user/trap.c and src/user/cpu_user.c.
use switch_v.Common.{ℕ, ◌||◌, ◌==◌, if◌then◌else◌}
use switch_v.Common.Outcome.{Outcome, ok, stop, exits, aborts, ◌>>=◌}
use switch_v.Cpu.Op
use switch_v.Cpu.Reg
use switch_v.Cpu.Decode.{i_imm}
use switch_v.Cpu.State.{Machine, reg, Platform}
use switch_v.Cpu.Instructions.{ill_ins, advance}
use switch_v.ThreadsMgr.{threads_mgr_halt_cores}
use switch_v.Supervisor.Sys.{brkpt, ecall_u_mode}
use switch_v.User.Host.{Host, UserWorld, on_all}
use switch_v.User.Emu.{emu_system_call}

module _ {H : Type 0} (host : Host H) where
  -- Page faults are ignored; any other code fails the assertion.
  unfoldable pub user_trap : ℕ → ℕ → Machine (UserWorld H) → Outcome (Machine (UserWorld H))
  user_trap code faulting_val m =
      if code == ill_ins
      then stop (exits 1)
      else if code == brkpt
      then ok (on_all m (threads_mgr_halt_cores m.world.shared.ctx))
      else if code == ecall_u_mode
      then emu_system_call host m
      else if code == 12 || code == 13 || code == 15
      then ok m
      else stop aborts

  -- The func3 is not looked at.
  unfoldable pub user_sys_type : ℕ → Machine (UserWorld H) → Outcome (Machine (UserWorld H))
  user_sys_type ins m =
      let imm = i_imm ins in
      if imm == Op.ecall
      then (user_trap ecall_u_mode 0 m >>= λ m'. ok (advance m' 4))
      else if imm == Op.ebreak
      then user_trap brkpt (reg m Reg.pc) m
      else user_trap ill_ins ins m

  -- The platform layer of a USER build, whose loop does not check for interrupts.
  unfoldable pub user : Platform (UserWorld H)
  user = record {
    dispatch_trap = user_trap;
    vcore_sys_type = user_sys_type;
    check_interrupts = λ m. ok m;
  }
