-- ===== src/User/Stat.antt =====
-- The structures that src/user/emu.c copies from the host's to the guest's layout.
use switch_v.Common.{ℕ, ◌+◌, ◌-◌, ◌/◌, ◌^◌, Bool, ◌||◌, if◌then◌else◌}
use switch_v.Common.Int.{ℤ, pos, negsuc, pos_part, neg_part, sub_ℕ, ◌+ℤ◌, ◌*ℤ◌, ◌/ℤ◌, ltb_ℤ}
use switch_v.Common.Word.{u16, signed64, to_u32, to_u64}
use switch_v.Common.Outcome.{Outcome, ◌>>=◌}
use switch_v.Memory.{Memory, mem_wh, mem_ww}
use switch_v.User.Host.{Time, Stat}

abbrev pub int32_max : ℤ
int32_max = pos (2 ^ 31 - 1)

abbrev pub int32_min : ℤ
int32_min = negsuc (2 ^ 31 - 1)

abbrev pub neg : ℤ → ℤ
neg z = sub_ℕ (neg_part z) (pos_part z)

abbrev pub is_negative : ℤ → Bool
is_negative z = ltb_ℤ z (pos 0)

-- A result of `int64_t`, which wraps around.
abbrev pub int64 : ℤ → ℤ
int64 z = signed64 (to_u64 z)

-- The two steps of `emu_copy_timespec` and `emu_copy_timeval`, with `unit` parts to the second:
-- whole seconds are taken out of a part that has no 32 bits, and a negative part borrows one.
unfoldable pub carry_seconds : ℕ → Time → Time
carry_seconds unit t =
    let extra_sec = t.part /ℤ pos unit in
    if ltb_ℤ int32_max t.part || ltb_ℤ t.part int32_min
    then record { sec = int64 (t.sec +ℤ extra_sec); part = t.part +ℤ neg (extra_sec *ℤ pos unit) }
    else t

unfoldable pub borrow_second : ℕ → Time → Time
borrow_second unit t =
    if is_negative t.part
    then record { sec = int64 (t.sec +ℤ negsuc 0); part = t.part +ℤ pos unit }
    else t

abbrev pub normal_time : ℕ → Time → Time
normal_time unit t = borrow_second unit (carry_seconds unit t)

-- `int64_t tv_sec` and then `int32_t`.
unfoldable pub store_time : Memory → ℕ → Time → Outcome Memory
store_time m addr t = do
  m1 ← mem_ww m addr (to_u32 t.sec)
  m2 ← mem_ww m1 (addr + 4) (to_u64 t.sec / 2 ^ 32)
  mem_ww m2 (addr + 8) (to_u32 t.part)

unfoldable pub emu_copy_timespec : Memory → ℕ → Time → Outcome Memory
emu_copy_timespec m ets ts = store_time m ets (normal_time 1000000000 ts)

unfoldable pub emu_copy_timeval : Memory → ℕ → Time → Outcome Memory
emu_copy_timeval m etv tv = store_time m etv (normal_time 1000000 tv)

abbrev pub stored_size : ℤ → ℤ
stored_size z = if ltb_ℤ int32_max z || ltb_ℤ z int32_min then int32_max else z

-- The fields at their offsets in `struct EMU_stat`.
unfoldable pub emu_copy_stat : Memory → ℕ → Stat → Outcome Memory
emu_copy_stat m es fs = do
  m1 ← mem_wh m es (u16 (to_u32 fs.st_dev))
  m2 ← mem_wh m1 (es + 2) (u16 (to_u32 fs.st_ino))
  m3 ← mem_ww m2 (es + 4) (to_u32 fs.st_mode)
  m4 ← mem_wh m3 (es + 8) (u16 (to_u32 fs.st_nlink))
  m5 ← mem_wh m4 (es + 10) (u16 (to_u32 fs.st_uid))
  m6 ← mem_wh m5 (es + 12) (u16 (to_u32 fs.st_gid))
  m7 ← mem_wh m6 (es + 14) (u16 (to_u32 fs.st_rdev))
  m8 ← mem_ww m7 (es + 16) (to_u32 (stored_size fs.st_size))
  m9 ← emu_copy_timespec m8 (es + 24) fs.st_atim
  m10 ← emu_copy_timespec m9 (es + 40) fs.st_mtim
  m11 ← emu_copy_timespec m10 (es + 56) fs.st_ctim
  m12 ← mem_ww m11 (es + 72) (to_u32 fs.st_blksize)
  mem_ww m12 (es + 76) (to_u32 fs.st_blocks)
