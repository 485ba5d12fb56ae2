-- ===== src/Cpu/Decode.antt =====
-- The masks and decoders of src/cpu.h and src/cpu.c: the fields of an instruction word, and the
-- immediates, sign-extended to 32 bits.
use switch_v.Common.{ℕ, ◌+◌, ◌-◌, ◌*◌, ◌/◌, ◌%◌, ◌^◌, bit_and, bit_or, bit_xor, Bool, not}
use switch_v.Common.{ltb, ◌==◌, if◌then◌else◌}
use switch_v.Common.Word.{u32, shl32, shr, sar32}
pub mod Fields
pub mod Encoding

-- `IS_COMPRESSED`, `OPCODE_TYPE`.
unfoldable pub is_compressed : ℕ → Bool
is_compressed ins = not (bit_and ins 0x3 == 0x3)

unfoldable pub opcode_type : ℕ → ℕ
opcode_type ins = bit_and ins 0x7F

-- `RD`, `RS1`, `RS2`, `FUNC`.
unfoldable pub rd : ℕ → ℕ
rd ins = shr (bit_and ins (0x1F * 2 ^ 7)) 7

unfoldable pub rs1 : ℕ → ℕ
rs1 ins = shr (bit_and ins (0x1F * 2 ^ 15)) 15

unfoldable pub rs2 : ℕ → ℕ
rs2 ins = shr (bit_and ins (0x1F * 2 ^ 20)) 20

unfoldable pub func : ℕ → ℕ
func ins = shr (bit_and ins (0x7 * 2 ^ 12)) 12

-- `R_FUNC` and `A_FUNC`: func3 below, and func7 or func5 from bit 4 on.
unfoldable pub r_func : ℕ → ℕ
r_func ins = bit_or (shr (bit_and ins (0x7 * 2 ^ 12)) 12) (shr (bit_and ins (0x7F * 2 ^ 25)) 21)

unfoldable pub a_func : ℕ → ℕ
a_func ins = bit_or (shr (bit_and ins (0x7 * 2 ^ 12)) 12) (shr (bit_and ins (0x1F * 2 ^ 27)) 23)

-- `I_IMM`, `B_IMM`, `J_IMM`, `U_IMM`, `S_IMM`.
unfoldable pub i_imm : ℕ → ℕ
i_imm ins = sar32 (bit_and ins (0xFFF * 2 ^ 20)) 20

unfoldable pub b_imm : ℕ → ℕ
b_imm ins =
    bit_or
      (bit_or (bit_or (shr (bit_and (0xF * 2 ^ 8) ins) 7) (shr (bit_and (0x3F * 2 ^ 25) ins) 20))
        (shl32 (bit_and (0x1 * 2 ^ 7) ins) 4))
      (sar32 (bit_and (1 * 2 ^ 31) ins) 19)

unfoldable pub j_imm : ℕ → ℕ
j_imm ins =
    bit_or
      (bit_or (bit_or (shl32 (bit_and (shr ins 21) 0x3FF) 1) (shl32 (bit_and (shr ins 20) 0x1) 11))
        (shl32 (bit_and (shr ins 12) 0xFF) 12))
      (bit_and (sar32 ins 11) 0xFFF00000)

unfoldable pub u_imm : ℕ → ℕ
u_imm ins = bit_and ins (0xFFFFF * 2 ^ 12)

unfoldable pub s_imm : ℕ → ℕ
unfolding rd
s_imm ins = bit_or (rd ins) (sar32 (bit_and ins (0x7F * 2 ^ 25)) 20)

-- `AQ_BIT`, `RL_BIT`.
unfoldable pub aq_bit : ℕ → Bool
aq_bit ins = not (bit_and ins (1 * 2 ^ 0x19) == 0)

unfoldable pub rl_bit : ℕ → Bool
rl_bit ins = not (bit_and ins (1 * 2 ^ 0x1A) == 0)
