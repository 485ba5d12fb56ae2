-- ===== src/Common/Word.antt =====
-- Machine words as native numbers below `2 ^ w`: casts, shifts, and the reading as two's
-- complement.
use Prim.Native.Nat.{ℕ, ◌+◌, ◌-◌, ◌*◌, ◌/◌, ◌%◌, ◌^◌}
use switch_v.Common.Tests.{ltb, if◌then◌else◌}
use switch_v.Common.Int.{ℤ, pos, negsuc}

abbrev pub u8 : ℕ → ℕ
u8 n = n % 2 ^ 8

abbrev pub u16 : ℕ → ℕ
u16 n = n % 2 ^ 16

abbrev pub u32 : ℕ → ℕ
u32 n = n % 2 ^ 32

-- `a + b` and `a - b` on `uint32_t`. The modulus is added first, since `-` stops at 0.
abbrev pub add32 : ℕ → ℕ → ℕ
add32 a b = u32 (a + b)

abbrev pub sub32 : ℕ → ℕ → ℕ
sub32 a b = u32 (a + 2 ^ 32 - b)

-- `a << k`, `a >> k` on `uint32_t`, and `(int32_t) a >> k`, which repeats the sign bit.
abbrev pub shl32 : ℕ → ℕ → ℕ
shl32 a k = u32 (a * 2 ^ k)

abbrev pub shr : ℕ → ℕ → ℕ
shr a k = a / 2 ^ k

abbrev pub sar32 : ℕ → ℕ → ℕ
sar32 a k = if ltb a (2 ^ 31) then a / 2 ^ k else a / 2 ^ k + (2 ^ 32 - 2 ^ 32 / 2 ^ k)

-- `~ a` on `uint32_t`.
abbrev pub not32 : ℕ → ℕ
not32 a = 2 ^ 32 - 1 - a

-- `(int32_t) a`, as an integer.
abbrev pub signed32 : ℕ → ℤ
signed32 a = if ltb a (2 ^ 31) then pos a else negsuc (2 ^ 32 - a - 1)

-- `(int64_t) a`, as an integer.
abbrev pub signed64 : ℕ → ℤ
signed64 a = if ltb a (2 ^ 63) then pos a else negsuc (2 ^ 64 - a - 1)

-- `(uint32_t) z` and `(uint64_t) z` of an integer: the residue.
abbrev pub to_u32 : ℤ → ℕ
to_u32 (pos n) = n % 2 ^ 32
to_u32 (negsuc n) = 2 ^ 32 - 1 - n % 2 ^ 32

abbrev pub to_u64 : ℤ → ℕ
to_u64 (pos n) = n % 2 ^ 64
to_u64 (negsuc n) = 2 ^ 64 - 1 - n % 2 ^ 64
