-- ===== src/User/Words/Copies.antt =====
-- What the system calls of src/user/emu.c store in the guest's memory is bytes.
use switch_v.Common.{ℕ, ◌+◌, ◌^◌, ◌<◌, arith}
use switch_v.Common.Int.{ℤ, pos, negsuc}
use switch_v.Common.Word.{to_u32}
use switch_v.Common.Outcome.{Holds, Holds->>=}
use switch_v.Memory.{Memory}
use switch_v.Memory.Laws.{IsBytes}
use switch_v.Memory.Words.{mem_ww-Holds, mem_wh-Holds}
use switch_v.User.Host.{Time, Stat}
use switch_v.User.Stat.{store_time, emu_copy_timespec, emu_copy_stat, normal_time}

pub to_u32-lt : (z : ℤ) → to_u32 z < 2 ^ 32
to_u32-lt (pos n) = omega arith
to_u32-lt (negsuc n) = omega arith

pub store_time-Holds :
    (m : Memory) (addr : ℕ) (t : Time) → IsBytes m → Holds IsBytes (store_time m addr t)
unfolding store_time
store_time-Holds m addr t b = Holds->>= IsBytes IsBytes _ _ (mem_ww-Holds m addr _ b) (λ m1 b1.
    Holds->>= IsBytes IsBytes _ _ (mem_ww-Holds m1 (addr + 4) _ b1)
      (λ m2 b2. mem_ww-Holds m2 (addr + 8) _ b2))

pub copy_stat-Holds :
    (m : Memory) (addr : ℕ) (fs : Stat) → IsBytes m → Holds IsBytes (emu_copy_stat m addr fs)
unfolding emu_copy_stat emu_copy_timespec
copy_stat-Holds m es fs b = Holds->>= IsBytes IsBytes _ _ (mem_wh-Holds m es _ b) (λ m1 b1.
    Holds->>= IsBytes IsBytes _ _ (mem_wh-Holds m1 (es + 2) _ b1) (λ m2 b2.
      Holds->>= IsBytes IsBytes _ _ (mem_ww-Holds m2 (es + 4) _ b2) (λ m3 b3.
        Holds->>= IsBytes IsBytes _ _ (mem_wh-Holds m3 (es + 8) _ b3) (λ m4 b4.
          Holds->>= IsBytes IsBytes _ _ (mem_wh-Holds m4 (es + 10) _ b4) (λ m5 b5.
            Holds->>= IsBytes IsBytes _ _ (mem_wh-Holds m5 (es + 12) _ b5) (λ m6 b6.
              Holds->>= IsBytes IsBytes _ _ (mem_wh-Holds m6 (es + 14) _ b6) (λ m7 b7.
                Holds->>= IsBytes IsBytes _ _ (mem_ww-Holds m7 (es + 16) _ b7) (λ m8 b8.
                  Holds->>= IsBytes IsBytes _ _
                    (store_time-Holds m8 (es + 24) (normal_time 1000000000 fs.st_atim) b8)
                    (λ m9 b9.
                      Holds->>= IsBytes IsBytes _ _
                        (store_time-Holds m9 (es + 40) (normal_time 1000000000 fs.st_mtim) b9)
                        (λ m10 b10.
                          Holds->>= IsBytes IsBytes _ _
                            (store_time-Holds m10 (es + 56) (normal_time 1000000000 fs.st_ctim) b10)
                            (λ m11 b11.
                              Holds->>= IsBytes IsBytes _ _ (mem_ww-Holds m11 (es + 72) _ b11)
                                (λ m12 b12. mem_ww-Holds m12 (es + 76) _ b12))))))))))))
