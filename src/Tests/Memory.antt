-- ===== src/Tests/Memory.antt =====
-- Words in memory.
use switch_v.Common.{◌/◌, ◌%◌, ◌^◌, ◌≡◌, arith, bit_and, bit_or, bit_xor}
use switch_v.Common.Word.{add32, not32}
use switch_v.Common.Outcome.{ok}
use switch_v.Memory.{
  Memory, mem_rb, mem_rh, mem_rw, mem_ww, mem_aadd, mem_aand, mem_aor, mem_axor, mem_aswp, mem_amax,
  mem_amin, mem_amaxu, mem_aminu, mem_anand,
}
use switch_v.Memory.Laws.{mem_rw-mem_ww}
use switch_v.Memory.Atomic.{
  Fetches, signed_max, signed_min, unsigned_max, unsigned_min, amo-Fetches,
}
use switch_v.Tests.Data.{blank, loaded_with, loaded_with-IsBytes}

mem_rw-mem_ww_example :
    (m' : Memory) × (mem_ww blank 7 0x8899AABB ≡ ok m')
    × (mem_rw m' 7 ≡ ok 0x8899AABB)
    × (mem_rh m' 7 ≡ ok (0x8899AABB % 2 ^ 16))
    × (mem_rh m' 9 ≡ ok (0x8899AABB / 2 ^ 16))
    × (mem_rb m' 7 ≡ ok (0x8899AABB % 2 ^ 8))
    × (mem_rb m' 8 ≡ ok (0x8899AABB / 2 ^ 8 % 2 ^ 8))
    × (mem_rb m' 9 ≡ ok (0x8899AABB / 2 ^ 16 % 2 ^ 8))
    × (mem_rb m' 10 ≡ ok (0x8899AABB / 2 ^ 24))
mem_rw-mem_ww_example = mem_rw-mem_ww blank 7 0x8899AABB (omega arith) (omega arith)

amo-Fetches_example :
    Fetches add32 (loaded_with 0xFFFFFFFE) 0 3 (mem_aadd (loaded_with 0xFFFFFFFE) 0 3)
    × Fetches bit_and (loaded_with 0xFFFFFFFE) 0 3 (mem_aand (loaded_with 0xFFFFFFFE) 0 3)
    × Fetches bit_or (loaded_with 0xFFFFFFFE) 0 3 (mem_aor (loaded_with 0xFFFFFFFE) 0 3)
    × Fetches bit_xor (loaded_with 0xFFFFFFFE) 0 3 (mem_axor (loaded_with 0xFFFFFFFE) 0 3)
    × Fetches (λ old v. v) (loaded_with 0xFFFFFFFE) 0 3 (mem_aswp (loaded_with 0xFFFFFFFE) 0 3)
    × Fetches signed_max (loaded_with 0xFFFFFFFE) 0 3 (mem_amax (loaded_with 0xFFFFFFFE) 0 3)
    × Fetches signed_min (loaded_with 0xFFFFFFFE) 0 3 (mem_amin (loaded_with 0xFFFFFFFE) 0 3)
    × Fetches unsigned_max (loaded_with 0xFFFFFFFE) 0 3 (mem_amaxu (loaded_with 0xFFFFFFFE) 0 3)
    × Fetches unsigned_min (loaded_with 0xFFFFFFFE) 0 3 (mem_aminu (loaded_with 0xFFFFFFFE) 0 3)
    × Fetches
        (λ old v. not32 (bit_and old v))
        (loaded_with 0xFFFFFFFE)
        0
        3
        (mem_anand (loaded_with 0xFFFFFFFE) 0 3)
amo-Fetches_example =
    amo-Fetches (loaded_with 0xFFFFFFFE) 0 3 (omega arith) (loaded_with-IsBytes 0xFFFFFFFE)
      (omega arith)
