-- ===== src/User/Words/Descriptors.antt =====
-- What the host documents of descriptors: a call on a descriptor that a guest can name keeps what
-- the emulator has of its own, and opening a file, copying its descriptor up and closing the first
-- one keeps it too.
use switch_v.Common.{ℕ, ◌+◌, ◌^◌, ◌<◌, ◌≤◌, arith, List}
use switch_v.Common.Int.{ℤ, pos, negsuc}
use switch_v.User.Host.{Host}
use switch_v.User.Emu.{elf_fd, elf_fds_baseline}

-- A descriptor of the guest, or one that no file has.
abbrev pub IsGuestFd : ℤ → Type 0
IsGuestFd (pos n) = elf_fds_baseline ≤ n
IsGuestFd (negsuc n) = Unit

pub elf_fd-IsGuestFd : (a0 : ℕ) → a0 < 2 ^ 31 → IsGuestFd (elf_fd a0)
elf_fd-IsGuestFd a0 h = ground arith

module _ {H : Type 0} (Own : H → Type 0) (Opened : ℕ → H → Type 0) where
  -- After an `open`: its result is the descriptor of one more file, or an error.
  abbrev pub AfterOpen : ℤ → H → Type 0
  AfterOpen (pos n) h = Opened n h
  AfterOpen (negsuc n) h = Own h

  -- `Own` is what must be kept, and `Opened fd` the same with one more file open, at `fd`.
  pub record KeepsFds (host : Host H) : Type 0 where
    pub closes : (fd : ℤ) (h : H) → IsGuestFd fd → Own h → Own (host.close fd h).1
    pub seeks :
        (fd : ℤ) (offset : ℕ) (whence : ℤ) (h : H)
        → IsGuestFd fd
        → Own h
        → Own (host.lseek fd offset whence h).1
    pub reads : (fd : ℤ) (n : ℕ) (h : H) → IsGuestFd fd → Own h → Own (host.read fd n h).2
    pub writes :
        (fd : ℤ) (bytes : List ℕ) (h : H) → IsGuestFd fd → Own h → Own (host.write fd bytes h).1
    pub stats : (fd : ℤ) (h : H) → IsGuestFd fd → Own h → Own (host.fstat fd h).2
    pub tells_day : (h : H) → Own h → Own (host.gettimeofday h).3
    pub tells_time : (clock : ℤ) (h : H) → Own h → Own (host.clock_gettime clock h).2
    pub opens :
        (path : List ℕ) (flags : ℤ) (h : H)
        → Own h
        → AfterOpen (host.open_path path flags h).0 (host.open_path path flags h).1
    pub copies_up :
        (n : ℕ) (h : H)
        → n < elf_fds_baseline
        → Opened n h
        → Opened n (host.dup2 (pos n) (pos (elf_fds_baseline + n)) h).1
    pub closes_opened : (n : ℕ) (h : H) → Opened n h → Own (host.close (pos n) h).1
    pub starts_sdl : (h : H) → Own h → Own (host.sdl_start h).1
    pub allocates : (h : H) → Own h → Own (host.allocates h).1
