-- ===== src/Tests/Decode.antt =====
-- Operands of the arithmetic.
use switch_v.Common.{ℕ, ◌+◌, ◌*◌, ◌^◌, ◌<◌, ◌≡◌, arith, inl, some}
use switch_v.Common.Int.{pos, pos_part, neg_part, ◌+ℤ◌, ◌*ℤ◌}
use switch_v.Common.Word.{signed32, to_u64}
use switch_v.Cpu.Op
use switch_v.Cpu.Alu.{r_value, mul, mulh, mulhsu, mulhu}
use switch_v.Cpu.Alu.Div.{magnitude, r_value-div-rem}
use switch_v.Cpu.Alu.Mul.{mul_words}

-- -7 by 2.
r_value-div-rem_example :
    (q : ℕ) × (r : ℕ) × (r_value Op.div 0xFFFFFFF9 2 ≡ some q)
    × (r_value Op.rem 0xFFFFFFF9 2 ≡ some r)
    × (signed32 2 *ℤ signed32 q +ℤ signed32 r ≡ signed32 0xFFFFFFF9)
    × (magnitude (signed32 r) < magnitude (signed32 2))
    × (pos_part (signed32 0xFFFFFFF9) * neg_part (signed32 r) ≡ 0)
    × (neg_part (signed32 0xFFFFFFF9) * pos_part (signed32 r) ≡ 0)
r_value-div-rem_example =
    r_value-div-rem 0xFFFFFFF9 2 (omega arith) (omega arith) (omega arith) (inl (omega arith))

mul_words_example :
    (mulh 0xFFFFFFF9 3 * 2 ^ 32 + mul 0xFFFFFFF9 3 ≡ to_u64 (signed32 0xFFFFFFF9 *ℤ signed32 3))
    × (mulhsu 0xFFFFFFF9 3 * 2 ^ 32 + mul 0xFFFFFFF9 3 ≡ to_u64 (signed32 0xFFFFFFF9 *ℤ pos 3))
    × (mulhu 0xFFFFFFF9 3 * 2 ^ 32 + mul 0xFFFFFFF9 3 ≡ 0xFFFFFFF9 * 3)
mul_words_example = mul_words 0xFFFFFFF9 3 (omega arith) (omega arith)
