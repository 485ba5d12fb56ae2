-- ===== src/Cpu/Isa/Hart.antt =====
-- A hart, as the RISC-V manual describes it, what an instruction does to it, and the hart that a
-- core of src/cpu.h stands for.
use switch_v.Common.{ℕ, ◌-◌, ◌*◌, ◌%◌, ◌^◌, ◌<◌, ◌≡◌, refl, fun_ext, arith}
use switch_v.Common.{ltb, ◌==◌, if◌then◌else◌, update}
use switch_v.Common.Word.{add32}
use switch_v.Common.Outcome.{Outcome, ok, stop, ◌>>=◌}
use switch_v.Memory.{Memory, mem_rw, mem_ww}
use switch_v.Cpu.Reg
use switch_v.Cpu.Decode.Fields.{sign_extend}
use switch_v.Cpu.State.{VCore, Machine, reg, write}
use switch_v.Cpu.Round.{reset}
use switch_v.Cpu.Isa.{
  Instr, alu, alu_imm, shift_imm, load, store, branch, jal, jalr, lui, auipc, amo,
}
use switch_v.Cpu.Isa.Results.{
  alu_result, imm_result, shift_result, load_result, store_result, branch_test, amo_result,
}

-- `csr` has the control registers, `other` the rest of the core, with no registers, and `world` the
-- platform's state.
pub record Hart (W : Type 0) : Type 0 where
  pub pc : ℕ
  pub gpr : ℕ → ℕ
  pub csr : ℕ → ℕ
  pub mem : Memory
  pub other : VCore
  pub world : W

module _ {W : Type 0} where
  -- Register 0 is not written.
  abbrev pub set_gpr : Hart W → ℕ → ℕ → Hart W
  set_gpr h d v = record h { gpr = λ i. if i == 0 then h.gpr 0 else update h.gpr d v i }

  abbrev pub go_to : Hart W → ℕ → Hart W
  go_to h target = record h { pc = target }

  abbrev pub next : Hart W → Hart W
  next h = go_to h (add32 h.pc 4)

  -- What an instruction does that raises no misaligned exception: `IsAligned` of Refines tells for
  -- which harts that is so. An access outside of the memory is not followed further. An indirect jump
  -- clears the lowest bit.
  abbrev pub step : Instr → Hart W → Outcome (Hart W)
  step (alu o d r1 r2) h = ok (next (set_gpr h d (alu_result o (h.gpr r1) (h.gpr r2))))
  step (alu_imm o d r1 imm) h =
      ok (next (set_gpr h d (imm_result o (h.gpr r1) (sign_extend 12 imm))))
  step (shift_imm o d r1 k) h = ok (next (set_gpr h d (shift_result o (h.gpr r1) k)))
  step (load o d r1 imm) h =
      load_result o h.mem (add32 (h.gpr r1) (sign_extend 12 imm)) >>= λ v. ok (next (set_gpr h d v))
  step (store o r1 r2 imm) h =
      store_result o h.mem (add32 (h.gpr r1) (sign_extend 12 imm)) (h.gpr r2) >>= λ mem.
      ok (next (record h { mem = mem }))
  step (branch o r1 r2 offset) h = ok (
      go_to h
        (add32 h.pc (if branch_test o (h.gpr r1) (h.gpr r2) then sign_extend 13 offset else 4)))
  step (jal d offset) h =
      ok (go_to (set_gpr h d (add32 h.pc 4)) (add32 h.pc (sign_extend 21 offset)))
  step (jalr d r1 imm) h =
      let target = add32 (h.gpr r1) (sign_extend 12 imm) in
      ok (go_to (set_gpr h d (add32 h.pc 4)) (target - target % 2))
  step (lui d upper) h = ok (next (set_gpr h d (upper * 2 ^ 12)))
  step (auipc d upper) h = ok (next (set_gpr h d (add32 h.pc (upper * 2 ^ 12))))
  step (amo o order d r1 r2) h = mem_rw h.mem (h.gpr r1) >>= λ old.
      mem_ww h.mem (h.gpr r1) (amo_result o old (h.gpr r2)) >>= λ mem.
      ok (next (set_gpr (record h { mem = mem }) d old))

  -- The program counter is register 32 of a core, the control registers come after it, and what
  -- register 0 of a core holds does not count.
  abbrev pub hart_of : Machine W → Hart W
  hart_of m = record {
    pc = reg m Reg.pc;
    gpr = λ i. if i == 0 then 0 else if ltb i 32 then reg m i else 0;
    csr = λ i. if ltb 32 i then reg m i else 0;
    mem = m.mem;
    other = record m.core { regs = λ _. 0 };
    world = m.world;
  }

  abbrev pub observe : Outcome (Machine W) → Outcome (Hart W)
  observe (ok m) = ok (hart_of m)
  observe (stop e) = stop e

  pub observe-ok :
      (r : Outcome (Machine W)) (h : Hart W)
      → observe r ≡ ok h
      → (m : Machine W) × (r ≡ ok m) × (hart_of m ≡ h)
  observe-ok (ok m) h e = (m, refl, cc)
  observe-ok (stop x) h e = cc

  -- A register of the core, as the round reads it, is that of the hart.
  pub gpr-reset : (m : Machine W) (r : ℕ) → r < 2 ^ 5 → reg (reset m) r ≡ (hart_of m).gpr r
  gpr-reset m r h = ground arith

  with_files :
      (h : Hart W) (target : ℕ) (g g' c c' : ℕ → ℕ)
      → g ≡ g'
      → c ≡ c'
      → record h { pc = target; gpr = g; csr = c } ≡ record h { pc = target; gpr = g'; csr = c' }
  with_files h target g g' c c' e f = rw (e, f)

  -- A write of a destination and of the program counter is one of the hart.
  pub hart_of-write :
      (m : Machine W) (d v target : ℕ)
      → d < 2 ^ 5
      → hart_of (write (write (reset m) d v) Reg.pc target) ≡ go_to (set_gpr (hart_of m) d v) target
  hart_of-write m d v target h =
      with_files (hart_of m) target _ _ _ _ (fun_ext λ i. ground arith) (fun_ext λ i. ground arith)

  -- So is one of the program counter alone.
  pub hart_of-jump :
      (m : Machine W) (target : ℕ)
      → hart_of (write (reset m) Reg.pc target) ≡ go_to (hart_of m) target
  hart_of-jump m target =
      with_files (hart_of m) target _ _ _ _ (fun_ext λ i. ground arith) (fun_ext λ i. ground arith)
