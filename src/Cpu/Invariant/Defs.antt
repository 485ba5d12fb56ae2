-- ===== src/Cpu/Invariant/Defs.antt =====
-- The invariant, and the small moves that every instruction makes.
use switch_v.Common.{ℕ, ◌^◌, ◌<◌, arith, update-lt}
use switch_v.Common.Word.{add32}
use switch_v.Common.Outcome.{Outcome, Holds}
use switch_v.Memory.Laws.{IsBytes}
use switch_v.Cpu.Reg
use switch_v.Cpu.State.{VCore, set_reg, Machine, reg, write, Platform}
use switch_v.Cpu.Instructions.{advance}

pub record IsCore (core : VCore) : Type 0 where
  pub word : (i : ℕ) → core.regs i < 2 ^ 32
  pub kept : core.reserved < 2 ^ 32
  pub brk : core.elf_brk < 2 ^ 32

-- `P` is what the platform layer keeps of its own state.
pub record IsMachine {W : Type 0} (P : W → Type 0) (m : Machine W) : Type 0 where
  pub core : IsCore m.core
  pub bytes : IsBytes m.mem
  pub world : P m.world

pub set_reg-IsCore : (core : VCore) (i v : ℕ) → IsCore core → v < 2 ^ 32 → IsCore (set_reg core i v)
set_reg-IsCore core i v c h = record {
  word = update-lt core.regs i v (2 ^ 32) c.word h;
  kept = c.kept;
  brk = c.brk;
}

module _ {W : Type 0} (P : W → Type 0) where
  -- The outcome is a stop, or a well-formed state.
  abbrev pub IsKept : Outcome (Machine W) → Type 0
  IsKept r = Holds (IsMachine P) r

  pub write-IsMachine :
      (m : Machine W) (i v : ℕ) → IsMachine P m → v < 2 ^ 32 → IsMachine P (write m i v)
  write-IsMachine m i v w h = record {
    core = set_reg-IsCore m.core i v w.core h;
    bytes = w.bytes;
    world = w.world;
  }

  pub advance-IsMachine : (m : Machine W) (n : ℕ) → IsMachine P m → IsMachine P (advance m n)
  advance-IsMachine m n w = write-IsMachine m Reg.pc (add32 (reg m Reg.pc) n) w (omega arith)

  -- What the platform layer owes the instructions.
  pub record KeepsWords (platform : Platform W) : Type 0 where
    pub traps :
        (code v : ℕ) (m : Machine W)
        → IsMachine P m
        → code < 2 ^ 32
        → v < 2 ^ 32
        → IsKept (platform.dispatch_trap code v m)
    pub sys_type :
        (ins : ℕ) (m : Machine W)
        → IsMachine P m
        → ins < 2 ^ 32
        → IsKept (platform.vcore_sys_type ins m)
    pub interrupts : (m : Machine W) → IsMachine P m → IsKept (platform.check_interrupts m)
