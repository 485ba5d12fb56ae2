-- ===== src/Cpu/State.antt =====
-- The state of a core, `VCore` of src/cpu.h, beside the memory and whatever else the build's
-- platform layer keeps; and that layer as an interface. src/user and src/supervisor implement it
-- differently, and a build has one of them.
use switch_v.Common.{ℕ, Bool, update}
use switch_v.Common.Outcome.{Outcome}
use switch_v.Memory.{Memory}

pub data ExecutionMode : Type 0 where
  supervisor_mode user_mode : ExecutionMode

-- `regs` is read as a function of the index. `elf_brk` is a field of USER builds only.
pub record VCore : Type 0 where
  pub regs : ℕ → ℕ
  pub reserved : ℕ
  pub ll_sc_flag : Bool
  pub atomic_exit_loop : Bool
  pub mode : ExecutionMode
  pub core_idx : ℕ
  pub elf_brk : ℕ

abbrev pub set_reg : VCore → ℕ → ℕ → VCore
set_reg core i v = record core { regs = update core.regs i v }

-- `world` is the state of the platform layer.
pub record Machine (W : Type 0) : Type 0 where
  pub core : VCore
  pub mem : Memory
  pub world : W

abbrev pub reg : {W : Type 0} → Machine W → ℕ → ℕ
reg m i = m.core.regs i

abbrev pub write : {W : Type 0} → Machine W → ℕ → ℕ → Machine W
write m i v = record m { core = set_reg m.core i v }

-- `dispatch_trap` takes the code and the faulting value. `check_interrupts` does nothing in a USER
-- build, whose loop does not call it.
pub record Platform (W : Type 0) : Type 0 where
  pub dispatch_trap : ℕ → ℕ → Machine W → Outcome (Machine W)
  pub vcore_sys_type : ℕ → Machine W → Outcome (Machine W)
  pub check_interrupts : Machine W → Outcome (Machine W)
