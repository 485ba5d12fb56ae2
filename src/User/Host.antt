-- ===== src/User/Host.antt =====
-- The host's system calls that src/user/emu.c makes, as an interface over a state of the host, and
-- the state of the USER layer. A call gives what the C function returns, as an integer.
use switch_v.Common.{ℕ, Bool, List}
use switch_v.Common.Int.{ℤ}
use switch_v.Cpu.State.{Machine}
use switch_v.ThreadsMgr.{Cthreads}
use switch_v.Supervisor.World.{World, on_threads}
use switch_v.Sdl.{SdlStart, SdlLib, Display}

-- `struct timespec` and `struct timeval`: seconds, and nanoseconds or microseconds.
pub record Time : Type 0 where
  pub sec : ℤ
  pub part : ℤ

-- `struct stat`, the fields that are copied.
pub record Stat : Type 0 where
  pub st_dev : ℤ
  pub st_ino : ℤ
  pub st_mode : ℤ
  pub st_nlink : ℤ
  pub st_uid : ℤ
  pub st_gid : ℤ
  pub st_rdev : ℤ
  pub st_size : ℤ
  pub st_atim : Time
  pub st_mtim : Time
  pub st_ctim : Time
  pub st_blksize : ℤ
  pub st_blocks : ℤ

-- `read` gives the bytes that it stores too, and the calls with a result structure what that holds
-- afterwards, which after a failure is what it held before. `open_path` takes the bytes of the path
-- and the flags, and `open_new` the permissions too; `gettimeofday` gives the bytes of the time
-- zone that it stores.
pub record Host (H : Type 0) : Type 0 where
  pub close : ℤ → H → ℤ × H
  pub lseek : ℤ → ℕ → ℤ → H → ℤ × H
  pub read : ℤ → ℕ → H → ℤ × List ℕ × H
  pub write : ℤ → List ℕ → H → ℤ × H
  pub fstat : ℤ → H → ℤ × Stat × H
  pub gettimeofday : H → ℤ × Time × List ℕ × H
  pub clock_gettime : ℤ → H → ℤ × Time × H
  pub open_path : List ℕ → ℤ → H → ℤ × H
  pub open_new : List ℕ → ℤ → ℕ → H → ℤ × H
  pub dup2 : ℤ → ℤ → H → ℤ × H
  pub sdl_start : H → SdlStart × H
  pub allocates : H → Bool × H
  pub sdl_lib : SdlLib

-- `shared` is the context and the threads, as in the other builds.
pub record UserWorld (H : Type 0) : Type 0 where
  pub shared : World
  pub brk_limit : ℕ
  pub display : Display
  pub host : H

abbrev pub set_host : {H : Type 0} → Machine (UserWorld H) → H → Machine (UserWorld H)
set_host m h = record m { world = record m.world { host = h } }

abbrev pub set_display : {H : Type 0} → Machine (UserWorld H) → Display → Machine (UserWorld H)
set_display m d = record m { world = record m.world { display = d } }

-- An operation on the array of threads.
abbrev pub on_all :
    {H : Type 0} → Machine (UserWorld H) → (Cthreads → Cthreads) → Machine (UserWorld H)
on_all m op =
    let m' = on_threads (record { core = m.core; mem = m.mem; world = m.world.shared }) op in
    record m { core = m'.core; world = record m.world { shared = m'.world } }
