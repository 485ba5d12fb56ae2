-- ===== src/Cpu/Round.antt =====
-- A round of the loop of `vcore_run`, from the instruction word in memory to the state after it, for
-- instruction words in the formats of the RISC-V manual.
pub mod LoadStore
use switch_v.Common.{
  ℕ, ◌+◌, ◌-◌, ◌*◌, ◌/◌, ◌%◌, ◌^◌, ◌≤◌, ◌<◌, ◌≡◌, ◌≢◌, refl, ap, ◌∙◌, arith, bit_and,
}
use switch_v.Common.{
  Bool, true, false, not, Option, none, some, ltb, leb, ◌==◌, if◌then◌else◌, update, update-update,
}
use switch_v.Common.Bits.{bit_and_low}
use switch_v.Common.Word.{add32}
use switch_v.Common.Outcome.{Outcome, ok, stop, exits, ◌>>=◌}
use switch_v.Memory.{Memory, mem_rw, mem_ww}
use switch_v.Cpu.Op
use switch_v.Cpu.Reg
use switch_v.Cpu.Decode.{
  is_compressed, opcode_type, rd, rs1, rs2, func, r_func, i_imm, b_imm, j_imm, s_imm,
}
use switch_v.Cpu.Decode.Fields.{sign_extend}
use switch_v.Cpu.Decode.Encoding.{
  encode_r, encode_i, encode_s, encode_b, encode_j, decode-encode_r, decode-encode_i,
  decode-encode_s, decode-encode_b, decode-encode_u_j,
}
use switch_v.Cpu.Alu.{r_value, b_taken}
use switch_v.Cpu.State.{VCore, set_reg, Machine, reg, write, Platform}
use switch_v.Cpu.Instructions.{
  advance, finish, branch, vcore_r_type, vcore_b_type, vcore_j_type, vcore_ij_type, vcore_il_type,
  vcore_s_type,
}
use switch_v.Cpu.Run.{execute, iterate}

-- The state that an instruction sees: register 0 has been reset.
abbrev pub reset : {W : Type 0} → Machine W → Machine W
reset m = write m Reg.zero 0

is_compressed_lem : (ins : ℕ) → ins % 4 ≡ 3 → is_compressed ins ≡ false
unfolding is_compressed
is_compressed_lem ins h = ground (arith, bit_and_low 2 ins)

module _ {W : Type 0} (platform : Platform W) where
  -- What is in register 0 before a round has no effect on it.
  pub iterate-zero :
      (m : Machine W) (v : ℕ) → iterate platform (write m Reg.zero v) ≡ iterate platform m
  unfolding iterate
  iterate-zero m v =
      ap (λ (regs : ℕ → ℕ). iterate_with (record m { core = record m.core { regs = regs } }))
        (update-update m.core.regs Reg.zero v 0)
    where
      iterate_with : Machine W → Outcome (Machine W)
      iterate_with m' = mem_rw m'.mem (reg m' Reg.pc) >>= λ ins.
          if is_compressed ins then stop (exits 1) else execute platform ins m'

  module _ (m : Machine W) (ins : ℕ) (fetch : mem_rw m.mem (reg m Reg.pc) ≡ ok ins) where
    pub round : ins % 4 ≡ 3 → iterate platform m ≡ execute platform ins (reset m)
    unfolding iterate
    round h = rw (fetch, is_compressed_lem ins h)

  -- An instruction of the register format in memory whose selector and operands have a value writes
  -- that value to its destination and goes on to the next instruction, and changes nothing else but
  -- register 0, which is reset first.
  pub round-r :
      (m : Machine W) (f7 r2 r1 f3 d v : ℕ)
      → f7 < 2 ^ 7
      → r2 < 2 ^ 5
      → r1 < 2 ^ 5
      → f3 < 2 ^ 3
      → d < 2 ^ 5
      → mem_rw m.mem (reg m Reg.pc) ≡ ok (encode_r f7 r2 r1 f3 d Op.r_type)
      → r_value (f7 * 2 ^ 4 + f3) (reg (reset m) r1) (reg (reset m) r2) ≡ some v
      → iterate platform m ≡ ok (advance (write (reset m) d v) 4)
  unfolding execute vcore_r_type
  round-r m f7 r2 r1 f3 d v h7 h2 h1 h3 hd fetch value =
      let x : ℕ = encode_r f7 r2 r1 f3 d Op.r_type in
      let fields = decode-encode_r f7 r2 r1 f3 d Op.r_type h7 h2 h1 h3 hd (omega arith) in
      round m x fetch (omega arith) ∙ rw (fields.0, fields.1, fields.2, fields.3, fields.4, value)

  -- A branch in memory, with an even 13-bit offset and a func3 of the manual, adds the sign-extended
  -- offset or 4 to the program counter, by its test, and changes nothing else.
  pub round-b :
      (m : Machine W) (offset r2 r1 f3 : ℕ) (taken : Bool)
      → offset < 2 ^ 13
      → offset % 2 ≡ 0
      → r2 < 2 ^ 5
      → r1 < 2 ^ 5
      → f3 < 2 ^ 3
      → mem_rw m.mem (reg m Reg.pc) ≡ ok (encode_b offset r2 r1 f3 Op.b_type)
      → b_taken f3 (reg (reset m) r1) (reg (reset m) r2) ≡ some taken
      → iterate platform m ≡ ok (advance (reset m) (if taken then sign_extend 13 offset else 4))
  unfolding execute vcore_b_type
  round-b m offset r2 r1 f3 taken ho he h2 h1 h3 fetch test =
      let x : ℕ = encode_b offset r2 r1 f3 Op.b_type in
      let fields = decode-encode_b offset r2 r1 f3 Op.b_type ho he h2 h1 h3 (omega arith) in
      round m x fetch (omega arith) ∙ rw (fields.0, fields.1, fields.2, fields.3, fields.4, test)

  -- A jump in memory, with an even 21-bit offset, links the address after it and adds the
  -- sign-extended offset to the program counter.
  pub round-j :
      (m : Machine W) (offset d : ℕ)
      → offset < 2 ^ 21
      → offset % 2 ≡ 0
      → d < 2 ^ 5
      → mem_rw m.mem (reg m Reg.pc) ≡ ok (encode_j offset d Op.j_type)
      → iterate platform m
        ≡ ok (advance (write (reset m) d (add32 (reg m Reg.pc) 4)) (sign_extend 21 offset))
  unfolding execute vcore_j_type
  round-j m offset d ho he hd fetch =
      let x : ℕ = encode_j offset d Op.j_type in
      let fields = decode-encode_u_j 0 offset d Op.j_type (omega arith) ho he hd (omega arith) in
      round m x fetch (omega arith) ∙ rw (fields.3, fields.4, fields.5)

  -- An indirect jump in memory, whose destination is not its base register, links the address after
  -- it and goes to the base plus the sign-extended offset.
  pub round-ij :
      (m : Machine W) (imm r1 f3 d : ℕ)
      → imm < 2 ^ 12
      → r1 < 2 ^ 5
      → f3 < 2 ^ 3
      → d < 2 ^ 5
      → d ≢ r1
      → mem_rw m.mem (reg m Reg.pc) ≡ ok (encode_i imm r1 f3 d Op.ij_type)
      → iterate platform m
        ≡ ok (
            write
              (write (reset m) d (add32 (reg m Reg.pc) 4))
              Reg.pc
              (add32 (reg (reset m) r1) (sign_extend 12 imm)))
  unfolding execute vcore_ij_type
  round-ij m imm r1 f3 d hi h1 h3 hd apart fetch =
      let x : ℕ = encode_i imm r1 f3 d Op.ij_type in
      let fields = decode-encode_i imm r1 f3 d Op.ij_type hi h1 h3 hd (omega arith) in
      let other : (r1 == d) ≡ false = ground arith in
      round m x fetch (omega arith) ∙ rw (fields.0, fields.1, fields.2, fields.4, other)

  -- With the same register for both, the link is written before the base is read: whatever the base
  -- held, the jump goes to the address after the instruction plus the offset.
  pub round-ij_same :
      (m : Machine W) (imm f3 d : ℕ)
      → imm < 2 ^ 12
      → f3 < 2 ^ 3
      → d < 2 ^ 5
      → mem_rw m.mem (reg m Reg.pc) ≡ ok (encode_i imm d f3 d Op.ij_type)
      → iterate platform m
        ≡ ok (
            write
              (write (reset m) d (add32 (reg m Reg.pc) 4))
              Reg.pc
              (add32 (add32 (reg m Reg.pc) 4) (sign_extend 12 imm)))
  unfolding execute vcore_ij_type
  round-ij_same m imm f3 d hi h3 hd fetch =
      let x : ℕ = encode_i imm d f3 d Op.ij_type in
      let fields = decode-encode_i imm d f3 d Op.ij_type hi hd h3 hd (omega arith) in
      let same : (d == d) ≡ true = ground arith in
      round m x fetch (omega arith) ∙ rw (fields.0, fields.1, fields.2, fields.4, same)
