-- ===== src/Cpu/Decode/Encoding.antt =====
-- The instruction formats of the RISC-V manual, as encoders: an independent description of what
-- the decoders have to read back. A register number has 5 bits, a func3 3, an opcode 7.
use switch_v.Common.{ℕ, ◌+◌, ◌*◌, ◌/◌, ◌%◌, ◌^◌, ◌<◌, ◌≡◌, arith}
use switch_v.Cpu.Decode.{
  opcode_type, rd, rs1, rs2, func, r_func, a_func, i_imm, b_imm, j_imm, u_imm, s_imm,
}
use switch_v.Cpu.Decode.Fields.{
  opcode_type_lem, rd_lem, rs1_lem, rs2_lem, func_lem, r_func_lem, a_func_lem,
}
use switch_v.Cpu.Decode.Fields.{i_imm_lem, b_imm_lem, j_imm_lem, u_imm_lem, s_imm_lem, sign_extend}

-- The fields that formats share, each in its place.
abbrev pub encode_r : ℕ → ℕ → ℕ → ℕ → ℕ → ℕ → ℕ
encode_r f7 r2 r1 f3 d op = f7 * 2 ^ 25 + r2 * 2 ^ 20 + r1 * 2 ^ 15 + f3 * 2 ^ 12 + d * 2 ^ 7 + op

abbrev pub encode_i : ℕ → ℕ → ℕ → ℕ → ℕ → ℕ
encode_i imm r1 f3 d op = imm * 2 ^ 20 + r1 * 2 ^ 15 + f3 * 2 ^ 12 + d * 2 ^ 7 + op

abbrev pub encode_s : ℕ → ℕ → ℕ → ℕ → ℕ → ℕ
encode_s imm r2 r1 f3 op =
    imm / 2 ^ 5 * 2 ^ 25 + r2 * 2 ^ 20 + r1 * 2 ^ 15 + f3 * 2 ^ 12 + imm % 2 ^ 5 * 2 ^ 7 + op

-- imm[12|10:5] and imm[4:1|11]: bit 0 is not stored.
abbrev pub encode_b : ℕ → ℕ → ℕ → ℕ → ℕ → ℕ
encode_b imm r2 r1 f3 op =
    imm / 2 ^ 12 * 2 ^ 31
    + imm / 2 ^ 5 % 2 ^ 6 * 2 ^ 25
    + r2 * 2 ^ 20
    + r1 * 2 ^ 15
    + f3 * 2 ^ 12
    + imm / 2 % 2 ^ 4 * 2 ^ 8
    + imm / 2 ^ 11 % 2 * 2 ^ 7
    + op

abbrev pub encode_u : ℕ → ℕ → ℕ → ℕ
encode_u imm d op = imm * 2 ^ 12 + d * 2 ^ 7 + op

-- imm[20|10:1|11|19:12].
abbrev pub encode_j : ℕ → ℕ → ℕ → ℕ
encode_j imm d op =
    imm / 2 ^ 20 * 2 ^ 31
    + imm / 2 % 2 ^ 10 * 2 ^ 21
    + imm / 2 ^ 11 % 2 * 2 ^ 20
    + imm / 2 ^ 12 % 2 ^ 8 * 2 ^ 12
    + d * 2 ^ 7
    + op

-- Every field of a register instruction is read back, and func7 and func3 together make the
-- selector of the operation. The func5 of an atomic is the upper part of its func7.
pub decode-encode_r :
    (f7 r2 r1 f3 d op : ℕ)
    → f7 < 2 ^ 7
    → r2 < 2 ^ 5
    → r1 < 2 ^ 5
    → f3 < 2 ^ 3
    → d < 2 ^ 5
    → op < 2 ^ 7
    → let x = encode_r f7 r2 r1 f3 d op in
      (opcode_type x ≡ op)
      × (rd x ≡ d)
      × (rs1 x ≡ r1)
      × (rs2 x ≡ r2)
      × (r_func x ≡ f7 * 2 ^ 4 + f3)
      × (a_func x ≡ f7 / 4 * 2 ^ 4 + f3)
decode-encode_r f7 r2 r1 f3 d op h1 h2 h3 h4 h5 h6 =
    let x : ℕ = encode_r f7 r2 r1 f3 d op in
    (
      omega (arith, opcode_type_lem x),
      omega (arith, rd_lem x),
      omega (arith, rs1_lem x),
      omega (arith, rs2_lem x),
      omega (arith, r_func_lem x),
      omega (arith, a_func_lem x),
    )

-- Every field of an immediate or load instruction is read back, the immediate sign-extended.
pub decode-encode_i :
    (imm r1 f3 d op : ℕ)
    → imm < 2 ^ 12
    → r1 < 2 ^ 5
    → f3 < 2 ^ 3
    → d < 2 ^ 5
    → op < 2 ^ 7
    → let x = encode_i imm r1 f3 d op in
      (opcode_type x ≡ op)
      × (rd x ≡ d)
      × (rs1 x ≡ r1)
      × (func x ≡ f3)
      × (i_imm x ≡ sign_extend 12 imm)
decode-encode_i imm r1 f3 d op h1 h2 h3 h4 h5 =
    let x : ℕ = encode_i imm r1 f3 d op in
    (
      omega (arith, opcode_type_lem x),
      omega (arith, rd_lem x),
      omega (arith, rs1_lem x),
      omega (arith, func_lem x),
      ground (arith, i_imm_lem x),
    )

-- The split immediate of a store is put together again.
pub decode-encode_s :
    (imm r2 r1 f3 op : ℕ)
    → imm < 2 ^ 12
    → r2 < 2 ^ 5
    → r1 < 2 ^ 5
    → f3 < 2 ^ 3
    → op < 2 ^ 7
    → let x = encode_s imm r2 r1 f3 op in
      (opcode_type x ≡ op)
      × (rs1 x ≡ r1)
      × (rs2 x ≡ r2)
      × (func x ≡ f3)
      × (s_imm x ≡ sign_extend 12 imm)
decode-encode_s imm r2 r1 f3 op h1 h2 h3 h4 h5 =
    let x : ℕ = encode_s imm r2 r1 f3 op in
    (
      omega (arith, opcode_type_lem x),
      omega (arith, rs1_lem x),
      omega (arith, rs2_lem x),
      omega (arith, func_lem x),
      ground (arith, s_imm_lem x),
    )

-- The scrambled offset of a branch is put together again, for every even 13-bit offset.
pub decode-encode_b :
    (imm r2 r1 f3 op : ℕ)
    → imm < 2 ^ 13
    → imm % 2 ≡ 0
    → r2 < 2 ^ 5
    → r1 < 2 ^ 5
    → f3 < 2 ^ 3
    → op < 2 ^ 7
    → let x = encode_b imm r2 r1 f3 op in
      (opcode_type x ≡ op)
      × (rs1 x ≡ r1)
      × (rs2 x ≡ r2)
      × (func x ≡ f3)
      × (b_imm x ≡ sign_extend 13 imm)
decode-encode_b imm r2 r1 f3 op h1 h2 h3 h4 h5 h6 =
    let x : ℕ = encode_b imm r2 r1 f3 op in
    (
      omega (arith, opcode_type_lem x),
      omega (arith, rs1_lem x),
      omega (arith, rs2_lem x),
      omega (arith, func_lem x),
      ground (arith, b_imm_lem x),
    )

-- The upper immediate fills the upper 20 bits, and the scrambled offset of a jump is put together
-- again, for every even 21-bit offset.
pub decode-encode_u_j :
    (upper offset d op : ℕ)
    → upper < 2 ^ 20
    → offset < 2 ^ 21
    → offset % 2 ≡ 0
    → d < 2 ^ 5
    → op < 2 ^ 7
    → let u = encode_u upper d op in
      let j = encode_j offset d op in
      (opcode_type u ≡ op)
      × (rd u ≡ d)
      × (u_imm u ≡ upper * 2 ^ 12)
      × (opcode_type j ≡ op)
      × (rd j ≡ d)
      × (j_imm j ≡ sign_extend 21 offset)
decode-encode_u_j upper offset d op h1 h2 h3 h4 h5 =
    let u : ℕ = encode_u upper d op in
    let j : ℕ = encode_j offset d op in
    (
      omega (arith, opcode_type_lem u),
      omega (arith, rd_lem u),
      omega (arith, u_imm_lem u),
      omega (arith, opcode_type_lem j),
      omega (arith, rd_lem j),
      ground (arith, j_imm_lem j),
    )
