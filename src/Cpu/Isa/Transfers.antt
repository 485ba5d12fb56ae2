-- ===== src/Cpu/Isa/Transfers.antt =====
-- One round of the loop of `vcore_run` of src/cpu.c against a step of the manual: the instructions
-- that compute a value, and those that transfer control.
use switch_v.Common.{ℕ, ◌+◌, ◌*◌, ◌/◌, ◌%◌, ◌^◌, ◌<◌, ◌≡◌, refl, ap, ◌∙◌, arith}
use switch_v.Common.{Bool, if◌then◌else◌}
use switch_v.Common.Word.{add32}
use switch_v.Common.Outcome.{ok}
use switch_v.Memory.{mem_rw}
use switch_v.Cpu.Op
use switch_v.Cpu.Reg
use switch_v.Cpu.Decode.{r_func, func, rs2, i_imm}
use switch_v.Cpu.Decode.Fields.{sign_extend, r_func_lem, func_lem}
use switch_v.Cpu.Decode.Encoding.{
  encode_r, encode_i, encode_u, decode-encode_r, decode-encode_i, decode-encode_u_j,
}
use switch_v.Cpu.State.{Machine, reg, write, Platform}
use switch_v.Cpu.Instructions.{advance, vcore_ir_type, vcore_lui_type, vcore_auipc_type}
use switch_v.Cpu.Run.{execute, iterate}
use switch_v.Cpu.Round.{reset, round, round-r, round-b, round-j, round-ij}
use switch_v.Cpu.Isa.{
  AluOp, ImmOp, ShiftOp, BranchOp, Instr, alu, alu_imm, shift_imm, branch, jal, jalr, lui, auipc,
  encode, IsInstr, alu_func7, alu_func3, imm_func3, shift_func7, shift_func3, branch_func3,
}
use switch_v.Cpu.Isa.Results.{alu_result, imm_result, shift_result, branch_test}
use switch_v.Cpu.Isa.Hart.{
  set_gpr, go_to, next, step, hart_of, observe, gpr-reset, hart_of-write, hart_of-jump,
}
use switch_v.Cpu.Isa.Values.{
  alu_func7-lt, alu_func3-lt, imm_func3-lt, shift_func7-lt, shift_func3-lt, branch_func3-lt,
  r_value-alu_result, ir_value-imm_result, ir_value-shift_result, b_taken-branch_test,
}

sign_extend-lt : (imm : ℕ) → imm < 2 ^ 12 → sign_extend 12 imm < 2 ^ 32
sign_extend-lt imm h = ground arith

module _ {W : Type 0} where
  -- A destination is not the program counter.
  advance-write :
      (m : Machine W) (d v n : ℕ)
      → d < 2 ^ 5
      → advance (write (reset m) d v) n
        ≡ write (write (reset m) d v) Reg.pc (add32 (reg m Reg.pc) n)
  advance-write m d v n h =
      ap (λ (t : ℕ). write (write (reset m) d v) Reg.pc (add32 t n)) (ground arith)

  -- What a round has written is what the hart writes.
  pub hart_of-advance :
      (m : Machine W) (d v n : ℕ)
      → d < 2 ^ 5
      → hart_of (advance (write (reset m) d v) n)
        ≡ go_to (set_gpr (hart_of m) d v) (add32 (reg m Reg.pc) n)
  hart_of-advance m d v n h =
      ap hart_of (advance-write m d v n h) ∙ hart_of-write m d v (add32 (reg m Reg.pc) n) h

-- A round with the instruction in memory is a step of it, for the instructions of the manual.
abbrev pub Refines : {W : Type 0} → Platform W → Machine W → Instr → Type 0
Refines platform m i =
    IsInstr i
    → mem_rw m.mem (reg m Reg.pc) ≡ ok (encode i)
    → observe (iterate platform m) ≡ step i (hart_of m)

module _ {W : Type 0} (platform : Platform W) (m : Machine W)
    (word : (i : ℕ) → m.core.regs i < 2 ^ 32) where
  word_reset : (r : ℕ) → reg (reset m) r < 2 ^ 32
  word_reset r = ground (arith, word r)

  -- A round that has written `v` is a step that writes it.
  computes :
      (d v : ℕ)
      → d < 2 ^ 5
      → iterate platform m ≡ ok (advance (write (reset m) d v) 4)
      → observe (iterate platform m) ≡ ok (next (set_gpr (hart_of m) d v))
  computes d v h e = ap observe e ∙ ap ok (hart_of-advance m d v 4 h)

  pub alu-Refines : (o : AluOp) (d r1 r2 : ℕ) → Refines platform m (alu o d r1 r2)
  alu-Refines o d r1 r2 (hd, h1, h2) fetch =
      let v : ℕ = alu_result o (reg (reset m) r1) (reg (reset m) r2) in
      let value =
        r_value-alu_result o (reg (reset m) r1) (reg (reset m) r2) (word_reset r1)
          (word_reset r2) in
      computes d v hd (
        round-r platform m (alu_func7 o) r2 r1 (alu_func3 o) d v (alu_func7-lt o) h2 h1
          (alu_func3-lt o) hd fetch value)
      ∙ rw (gpr-reset m r1 h1, gpr-reset m r2 h2)

  pub alu_imm-Refines : (o : ImmOp) (d r1 imm : ℕ) → Refines platform m (alu_imm o d r1 imm)
  unfolding execute vcore_ir_type
  alu_imm-Refines o d r1 imm (hd, h1, hi) fetch =
      let x : ℕ = encode_i imm r1 (imm_func3 o) d Op.ir_type in
      let f = imm_func3-lt o in
      let fields = decode-encode_i imm r1 (imm_func3 o) d Op.ir_type hi h1 f hd (omega arith) in
      let selector : r_func x ≡ imm / 2 ^ 5 * 2 ^ 4 + imm_func3 o = omega (arith, r_func_lem x) in
      let value =
        ir_value-imm_result o (imm / 2 ^ 5) (reg (reset m) r1) (rs2 x) (sign_extend 12 imm)
          (word_reset r1) (sign_extend-lt imm hi) in
      computes d (imm_result o (reg (reset m) r1) (sign_extend 12 imm)) hd (
        round platform m x fetch (omega arith)
        ∙ rw (fields.0, fields.1, fields.2, fields.3, fields.4, selector, value))
      ∙ rw (gpr-reset m r1 h1)

  pub shift_imm-Refines : (o : ShiftOp) (d r1 k : ℕ) → Refines platform m (shift_imm o d r1 k)
  unfolding execute vcore_ir_type
  shift_imm-Refines o d r1 k (hd, h1, hk) fetch =
      let x : ℕ = encode_r (shift_func7 o) k r1 (shift_func3 o) d Op.ir_type in
      let f7 = shift_func7-lt o in
      let f3 = shift_func3-lt o in
      let fields =
        decode-encode_r (shift_func7 o) k r1 (shift_func3 o) d Op.ir_type f7 hk h1 f3 hd
          (omega arith) in
      let selector : func x ≡ shift_func3 o = omega (arith, func_lem x) in
      let value = ir_value-shift_result o (reg (reset m) r1) k (i_imm x) in
      computes d (shift_result o (reg (reset m) r1) k) hd (
        round platform m x fetch (omega arith)
        ∙ rw (fields.0, fields.1, fields.2, fields.3, fields.4, selector, value))
      ∙ rw (gpr-reset m r1 h1)

  pub lui-Refines : (d upper : ℕ) → Refines platform m (lui d upper)
  unfolding execute vcore_lui_type
  lui-Refines d upper (hd, hu) fetch =
      let x : ℕ = encode_u upper d Op.lui in
      let fields = decode-encode_u_j upper 0 d Op.lui hu (omega arith) refl hd (omega arith) in
      computes d (upper * 2 ^ 12) hd
        (round platform m x fetch (omega arith) ∙ rw (fields.0, fields.1, fields.2))

  pub auipc-Refines : (d upper : ℕ) → Refines platform m (auipc d upper)
  unfolding execute vcore_auipc_type
  auipc-Refines d upper (hd, hu) fetch =
      let x : ℕ = encode_u upper d Op.auipc in
      let fields = decode-encode_u_j upper 0 d Op.auipc hu (omega arith) refl hd (omega arith) in
      computes d (add32 (reg m Reg.pc) (upper * 2 ^ 12)) hd
        (round platform m x fetch (omega arith) ∙ rw (fields.0, fields.1, fields.2))

  pub branch-Refines :
      (o : BranchOp) (r1 r2 offset : ℕ) → Refines platform m (branch o r1 r2 offset)
  branch-Refines o r1 r2 offset (h1, h2, ho, he) fetch =
      let taken : Bool = branch_test o (reg (reset m) r1) (reg (reset m) r2) in
      let test = b_taken-branch_test o (reg (reset m) r1) (reg (reset m) r2) in
      let ran =
        round-b platform m offset r2 r1 (branch_func3 o) taken ho he h2 h1 (branch_func3-lt o) fetch
          test in
      ap observe ran
      ∙ ap ok (hart_of-jump m (add32 (reg m Reg.pc) (if taken then sign_extend 13 offset else 4)))
      ∙ rw (gpr-reset m r1 h1, gpr-reset m r2 h2)

  pub jal-Refines : (d offset : ℕ) → Refines platform m (jal d offset)
  jal-Refines d offset (hd, ho, he) fetch =
      ap observe (round-j platform m offset d ho he hd fetch)
      ∙ ap ok (hart_of-advance m d (add32 (reg m Reg.pc) 4) (sign_extend 21 offset) hd)

  -- To an even target, since the code does not clear its lowest bit.
  pub jalr-Refines :
      (d r1 imm : ℕ)
      → add32 ((hart_of m).gpr r1) (sign_extend 12 imm) % 2 ≡ 0
      → Refines platform m (jalr d r1 imm)
  jalr-Refines d r1 imm even (hd, h1, hi, apart) fetch =
      let target : ℕ = add32 (reg (reset m) r1) (sign_extend 12 imm) in
      ap observe (round-ij platform m imm r1 0 d hi h1 (omega arith) hd apart fetch)
      ∙ ap ok (hart_of-write m d (add32 (reg m Reg.pc) 4) target hd)
      ∙ ap (λ (t : ℕ). ok (go_to (set_gpr (hart_of m) d (add32 (reg m Reg.pc) 4)) t))
          (omega (arith, gpr-reset m r1 h1))
