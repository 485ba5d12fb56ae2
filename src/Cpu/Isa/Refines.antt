-- ===== src/Cpu/Isa/Refines.antt =====
-- The interpreter of src/cpu.c as a refinement of the RISC-V manual: one round of the loop of
-- `vcore_run`, and a run of it, against the steps of a hart.
use switch_v.Common.{ℕ, ◌%◌, ◌≡◌, refl, arith, Bool, true, false, if◌then◌else◌}
use switch_v.Common.Word.{add32}
use switch_v.Common.Outcome.{ok}
use switch_v.Memory.{mem_rw}
use switch_v.Cpu.Reg
use switch_v.Cpu.Decode.Fields.{sign_extend}
use switch_v.Cpu.State.{Machine, reg, Platform}
use switch_v.Cpu.Run.{iterate}
use switch_v.Cpu.Invariant.{IsMachine}
use switch_v.Cpu.Isa.{
  Instr, alu, alu_imm, shift_imm, load, store, branch, jal, jalr, lui, auipc, amo, encode, IsInstr,
}
use switch_v.Cpu.Isa.Results.{branch_test}
use switch_v.Cpu.Isa.Hart.{Hart, step, hart_of, observe}
use switch_v.Cpu.Isa.Transfers.{
  alu-Refines, alu_imm-Refines, shift_imm-Refines, branch-Refines, jal-Refines, jalr-Refines,
  lui-Refines, auipc-Refines,
}
use switch_v.Cpu.Isa.Atomics.{amo-Refines}
use switch_v.Cpu.Isa.Accesses.{load-Refines, store-Refines}

-- The steps that raise no misaligned exception in the manual: the target of a jump or of a branch
-- that is taken, and the address of an AMO, are multiples of 4. The code tests none of these.
abbrev pub IsAligned : {W : Type 0} → Instr → Hart W → Type 0
IsAligned (branch o r1 r2 offset) h =
    (if branch_test o (h.gpr r1) (h.gpr r2) then add32 h.pc (sign_extend 13 offset) % 4 else 0) ≡ 0
IsAligned (jal d offset) h = add32 h.pc (sign_extend 21 offset) % 4 ≡ 0
IsAligned (jalr d r1 imm) h =
    let target = add32 (h.gpr r1) (sign_extend 12 imm) in (target % 2 ≡ 0) × (target % 4 ≡ 0)
IsAligned (amo o order d r1 r2) h = h.gpr r1 % 4 ≡ 0
IsAligned _ h = Unit

-- The instructions that are aligned at address 0, whatever the registers hold.
abbrev pub IsDirect : Instr → Type 0
IsDirect (branch o r1 r2 offset) = sign_extend 13 offset % 4 ≡ 0
IsDirect (jal d offset) = sign_extend 21 offset % 4 ≡ 0
IsDirect (jalr d r1 imm) = false ≡ true
IsDirect (amo o order d r1 r2) = false ≡ true
IsDirect _ = Unit

aligned_at_0 :
    (taken : Bool) (pc offset : ℕ)
    → pc ≡ 0
    → offset % 4 ≡ 0
    → (if taken then add32 pc offset % 4 else 0) ≡ 0
aligned_at_0 true pc offset at direct = omega arith
aligned_at_0 false pc offset at direct = refl

pub direct-IsAligned : {W : Type 0} (i : Instr) (h : Hart W) → h.pc ≡ 0 → IsDirect i → IsAligned i h
direct-IsAligned (branch o r1 r2 k) h at direct =
    aligned_at_0 (branch_test o (h.gpr r1) (h.gpr r2)) h.pc (sign_extend 13 k) at direct
direct-IsAligned (jal d k) h at direct = aligned_at_0 true h.pc (sign_extend 21 k) at direct
direct-IsAligned (jalr d r1 imm) h at direct = cc
direct-IsAligned (amo o order d r1 r2) h at direct = cc
direct-IsAligned (alu o d r1 r2) h at direct = tt
direct-IsAligned (alu_imm o d r1 imm) h at direct = tt
direct-IsAligned (shift_imm o d r1 k) h at direct = tt
direct-IsAligned (load o d r1 imm) h at direct = tt
direct-IsAligned (store o r1 r2 imm) h at direct = tt
direct-IsAligned (lui d upper) h at direct = tt
direct-IsAligned (auipc d upper) h at direct = tt

module _ {W : Type 0} (P : W → Type 0) (platform : Platform W) where
  -- In a well-formed state with an instruction of RV32I or M or an AMO in memory at the program
  -- counter (no fence, system instruction, LR, SC or AMOOR), which raises no misaligned exception
  -- (the target of a taken branch or a jump and the address of an AMO are multiples of 4), a round of
  -- the loop does to the core, read as a hart, what the manual says that the instruction does: to the
  -- registers, the program counter, the memory, and to nothing else; and it accesses memory outside
  -- of the mapping exactly if the instruction does. Of the indirect jumps it is so for those whose
  -- link register is not their base.
  pub iterate-step :
      (m : Machine W) (i : Instr)
      → IsMachine P m
      → IsInstr i
      → IsAligned i (hart_of m)
      → mem_rw m.mem (reg m Reg.pc) ≡ ok (encode i)
      → observe (iterate platform m) ≡ step i (hart_of m)
  iterate-step m (alu o d r1 r2) w f e = alu-Refines platform m w.core.word o d r1 r2 f
  iterate-step m (alu_imm o d r1 imm) w f e = alu_imm-Refines platform m w.core.word o d r1 imm f
  iterate-step m (shift_imm o d r1 k) w f e = shift_imm-Refines platform m w.core.word o d r1 k f
  iterate-step m (load o d r1 imm) w f e = load-Refines platform m o d r1 imm w.bytes f
  iterate-step m (store o r1 r2 imm) w f e = store-Refines platform m o r1 r2 imm f
  iterate-step m (branch o r1 r2 k) w f e = branch-Refines platform m w.core.word o r1 r2 k f
  iterate-step m (jal d k) w f e = jal-Refines platform m w.core.word d k f
  iterate-step m (jalr d r1 imm) w f e = jalr-Refines platform m w.core.word d r1 imm e.0 f
  iterate-step m (lui d upper) w f e = lui-Refines platform m w.core.word d upper f
  iterate-step m (auipc d upper) w f e = auipc-Refines platform m w.core.word d upper f
  iterate-step m (amo o order d r1 r2) w f e = amo-Refines platform m o order d r1 r2 w.bytes f
