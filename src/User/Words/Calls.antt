-- ===== src/User/Words/Calls.antt =====
-- Each system call for files and the time of src/user/emu.c keeps words words, and what the
-- emulator has of its own on the host.
use switch_v.Common.{ℕ, ◌+◌, ◌-◌, ◌^◌, ◌<◌, ◌≡◌, refl, arith}
use switch_v.Common.{Bool, true, false, leb, if◌then◌else◌}
use switch_v.Common.Int.{ℤ, pos, negsuc}
use switch_v.Common.Word.{signed32, to_u32}
use switch_v.Common.Outcome.{Outcome, ok, stop, exits, Holds, Holds->>=, ◌>>=◌}
use switch_v.Memory.{Memory, mem_wb_ptr_s, mem_rb_ptr_s}
use switch_v.Memory.Laws.{IsBytes}
use switch_v.Memory.Words.{mem_wb_ptr_s-Holds}
use switch_v.Cpu.Reg
use switch_v.Cpu.State.{Machine, reg, write}
use switch_v.User.Host.{Host, UserWorld}
use switch_v.User.Stat.{store_time, emu_copy_timespec, emu_copy_timeval, emu_copy_stat, normal_time}
use switch_v.User.Emu.{
  elf_fd, is_bad_fd, failed, elf_fds_baseline, result, set_mem, read_path, moved_up, emu_close,
  emu_lseek, emu_read, emu_write, emu_fstat, emu_gettimeofday, emu_clock_gettime, emu_open,
}
use switch_v.User.Words.Descriptors.{IsGuestFd, elf_fd-IsGuestFd, AfterOpen, KeepsFds}
use switch_v.User.Words.Copies.{store_time-Holds, copy_stat-Holds}
use switch_v.User.Words.Kept.{Kept, result-Kept, set_mem-Kept, after, refused}

below : (a n : ℕ) → leb n a ≡ false → a < n
below a n e = ground arith

module _ {H : Type 0} (Own : H → Type 0) where
  module _ (Opened : ℕ → H → Type 0) (host : Host H) (fds : KeepsFds Own Opened host)
      (m : Machine (UserWorld H)) (w : (Kept Own) m) where
    o : Own m.world.host
    o = w.world.own

    fd : ℤ
    fd = elf_fd (reg m Reg.a0)

    on_fd-Kept :
        (r : Outcome (Machine (UserWorld H)))
        → (IsGuestFd fd → Holds (Kept Own) r)
        → Holds (Kept Own) (if is_bad_fd (reg m Reg.a0) then ok (write m Reg.a0 failed) else r)
    unfolding fd
    on_fd-Kept r k = at (is_bad_fd (reg m Reg.a0)) refl
      where
        at :
            (b : Bool)
            → is_bad_fd (reg m Reg.a0) ≡ b
            → Holds (Kept Own) (if b then ok (write m Reg.a0 failed) else r)
        at true e = refused Own m w
        at false e = k (elf_fd-IsGuestFd (reg m Reg.a0) (below (reg m Reg.a0) (2 ^ 31) e))

    -- A call that stores in the memory before it answers.
    stored-Kept :
        (mem : Outcome Memory) (r : ℤ) (h : H)
        → Holds IsBytes mem
        → Own h
        → Holds (Kept Own) (mem >>= λ mem'. ok (result (set_mem m mem') r h))
    stored-Kept mem r h b k =
        Holds->>= IsBytes (Kept Own) mem _ b
          (λ mem' b'. result-Kept Own (set_mem m mem') r h (set_mem-Kept Own m mem' w b') k)

    pub emu_close-Kept : Holds (Kept Own) (emu_close host m)
    unfolding emu_close fd o
    emu_close-Kept =
        let a = host.close fd m.world.host in
        on_fd-Kept _ (λ g. result-Kept Own m a.0 a.1 w (fds.closes fd _ g o))

    pub emu_lseek-Kept : Holds (Kept Own) (emu_lseek host m)
    unfolding emu_lseek fd o
    emu_lseek-Kept =
        let a = host.lseek fd (reg m Reg.a1) (signed32 (reg m Reg.a2)) m.world.host in
        on_fd-Kept _ (λ g. result-Kept Own m a.0 a.1 w (fds.seeks fd _ _ _ g o))

    pub emu_read-Kept : Holds (Kept Own) (emu_read host m)
    unfolding emu_read fd o
    emu_read-Kept =
        let a = host.read fd (reg m Reg.a2) m.world.host in
        on_fd-Kept _ (λ g.
          stored-Kept (mem_wb_ptr_s m.mem (reg m Reg.a1) a.1) a.0 a.2
            (mem_wb_ptr_s-Holds m.mem (reg m Reg.a1) a.1 w.bytes) (fds.reads fd _ _ g o))

    pub emu_write-Kept : Holds (Kept Own) (emu_write host m)
    unfolding emu_write fd o
    emu_write-Kept = on_fd-Kept _ (λ g.
        after Own (mem_rb_ptr_s m.mem (reg m Reg.a1) (reg m Reg.a2)) _ (λ bytes.
          let a = host.write (elf_fd (reg m Reg.a0)) bytes m.world.host in
          result-Kept Own m a.0 a.1 w (fds.writes fd bytes _ g o)))

    pub emu_fstat-Kept : Holds (Kept Own) (emu_fstat host m)
    unfolding emu_fstat fd o
    emu_fstat-Kept =
        let a = host.fstat fd m.world.host in
        on_fd-Kept _ (λ g.
          stored-Kept (emu_copy_stat m.mem (reg m Reg.a1) a.1) a.0 a.2
            (copy_stat-Holds m.mem (reg m Reg.a1) a.1 w.bytes) (fds.stats fd _ g o))

    pub emu_gettimeofday-Kept : Holds (Kept Own) (emu_gettimeofday host m)
    unfolding emu_gettimeofday emu_copy_timeval o
    emu_gettimeofday-Kept =
        let a = host.gettimeofday m.world.host in
        let t = normal_time 1000000 a.1 in
        Holds->>= IsBytes (Kept Own) (mem_wb_ptr_s m.mem (reg m Reg.a1) a.2) _
          (mem_wb_ptr_s-Holds m.mem (reg m Reg.a1) a.2 w.bytes)
          (λ mem b.
            stored-Kept (store_time mem (to_u32 a.0) t) a.0 a.3
              (store_time-Holds mem (to_u32 a.0) t b) (fds.tells_day _ o))

    pub emu_clock_gettime-Kept : Holds (Kept Own) (emu_clock_gettime host m)
    unfolding emu_clock_gettime emu_copy_timespec o
    emu_clock_gettime-Kept =
        let a = host.clock_gettime (signed32 (reg m Reg.a0)) m.world.host in
        let t = normal_time 1000000000 a.1 in
        stored-Kept (store_time m.mem (reg m Reg.a1) t) a.0 a.2
          (store_time-Holds m.mem (reg m Reg.a1) t w.bytes) (fds.tells_time _ _ o)

    moved_up-Kept :
        (r : ℤ) (h : H) → AfterOpen Own Opened r h → Holds (Kept Own) (moved_up host m r h)
    moved_up-Kept (negsuc n) h k = result-Kept Own m (negsuc n) h w k
    moved_up-Kept (pos n) h k = at (leb elf_fds_baseline n) refl
      where
        copied : ℤ × H
        copied = host.dup2 (pos n) (pos (elf_fds_baseline + n)) h

        closed : ℤ × H
        closed = host.close (pos n) copied.1

        at :
            (b : Bool)
            → leb elf_fds_baseline n ≡ b
            → Holds (Kept Own) (if b then stop (exits 1) else ok (result m (pos n) closed.1))
        at true e = tt
        at false e =
            result-Kept Own m (pos n) closed.1 w
              (fds.closes_opened n _ (fds.copies_up n h (below n elf_fds_baseline e) k))

    pub emu_open-Kept : Holds (Kept Own) (emu_open host m)
    unfolding emu_open o
    emu_open-Kept =
        after Own (read_path m.mem.cell (reg m Reg.a0) (m.mem.size - reg m Reg.a0)) _ (λ path.
          let a = host.open_path path (signed32 (reg m Reg.a1)) m.world.host in
          moved_up-Kept a.0 a.1 (fds.opens path _ _ o))
