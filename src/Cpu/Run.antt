-- ===== src/Cpu/Run.antt =====
-- `vcore_run` and `vcore_init` of src/cpu.c.
use switch_v.Common.{ℕ, Bool, false, ◌||◌, Option, none, some, List, [], ◌∷◌}
use switch_v.Common.{◌==◌, if◌then◌else◌, update}
use switch_v.Common.Outcome.{Outcome, ok, stop, exits, ◌>>=◌}
use switch_v.Memory.{mem_rw}
use switch_v.Cpu.Op
use switch_v.Cpu.Reg
use switch_v.Cpu.Decode.{is_compressed, opcode_type}
use switch_v.Cpu.State.{VCore, Machine, reg, write, Platform, supervisor_mode}
use switch_v.Cpu.Instructions.{
  ill_ins, vcore_r_type, vcore_ir_type, vcore_il_type, vcore_s_type, vcore_b_type, vcore_j_type,
  vcore_ij_type, vcore_lui_type, vcore_auipc_type, vcore_a_type,
}

-- `VCore_Init`; `elf_brk` is a field of USER builds only.
pub record VCoreInit : Type 0 where
  pub pc : ℕ
  pub sp : ℕ
  pub id : ℕ
  pub opaque : ℕ
  pub gp : ℕ
  pub elf_brk : ℕ

-- The core after the `memset`, with the mode set.
abbrev pub cleared : VCore
cleared = record {
  regs = λ _. 0;
  reserved = 0;
  ll_sc_flag = false;
  atomic_exit_loop = false;
  mode = supervisor_mode;
  core_idx = 0;
  elf_brk = 0;
}

unfoldable pub vcore_init : Option VCoreInit → VCore
vcore_init none = cleared
vcore_init (some init) =
    let regs = update (update (update (λ _. 0) Reg.pc init.pc) Reg.sp init.sp) Reg.a0 init.id in
    record cleared {
      regs = update (update regs Reg.a1 init.opaque) Reg.gp init.gp;
      core_idx = init.id;
      elf_brk = init.elf_brk;
    }

-- How a call of `vcore_run` stands after as many rounds as it was given.
pub data Ran (W : Type 0) : Type 0 where
  returned : Machine W → Ran W
  running : Machine W → Ran W

module _ {W : Type 0} (platform : Platform W) where
  open platform use {dispatch_trap, vcore_sys_type, check_interrupts}

  -- The `switch` over the opcode.
  unfoldable pub execute : ℕ → Machine W → Outcome (Machine W)
  execute ins m =
      let op = opcode_type ins in
      if op == Op.r_type
      then vcore_r_type platform ins m
      else if op == Op.ir_type
      then vcore_ir_type platform ins m
      else if op == Op.il_type
      then vcore_il_type platform ins m
      else if op == Op.s_type
      then vcore_s_type platform ins m
      else if op == Op.b_type
      then vcore_b_type platform ins m
      else if op == Op.j_type
      then vcore_j_type ins m
      else if op == Op.ij_type
      then vcore_ij_type ins m
      else if op == Op.lui
      then vcore_lui_type ins m
      else if op == Op.auipc
      then vcore_auipc_type ins m
      else if op == Op.a_type
      then vcore_a_type platform ins m
      else if op == Op.sys_type
      then vcore_sys_type ins m
      else dispatch_trap ill_ins ins m

  -- The body of the loop, up to the test of the flag.
  unfoldable pub iterate : Machine W → Outcome (Machine W)
  iterate m =
      let m' = write m Reg.zero 0 in
      mem_rw m'.mem (reg m' Reg.pc) >>= λ ins.
      if is_compressed ins then stop (exits 1) else execute ins m'

  -- One entry of the list for each round: whether another thread has stored 1 into
  -- `atomic_exit_loop` before the flag is loaded.
  unfoldable pub vcore_run : List Bool → Machine W → Outcome (Ran W)
  vcore_run [] m = ok (running m)
  vcore_run (signalled ∷ rest) m =
      let next = λ (m'' : Machine W). vcore_run rest m'' in
      iterate m >>= λ m'.
      let flag = signalled || m'.core.atomic_exit_loop in
      if flag
      then ok (returned (record m' { core = record m'.core { atomic_exit_loop = flag } }))
      else (check_interrupts m' >>= next)
