-- ===== src/Tests/User.antt =====
-- A host that keeps which descriptors are open, the machine of a guest on it, and its calls.
use switch_v.Common.{
  ℕ, ◌<◌, ◌≡◌, refl, arith, Bool, true, false, [], ◌∷◌, ltb, if◌then◌else◌, update,
}
use switch_v.Common.Int.{ℤ, pos, negsuc}
use switch_v.Common.Outcome.{Holds}
use switch_v.Cpu.Reg
use switch_v.Cpu.State.{Machine}
use switch_v.Cpu.Run.{vcore_run}
use switch_v.Cpu.Invariant.{IsMachine, machine_of}
use switch_v.User.Host.{Host, Time, Stat, UserWorld}
use switch_v.User.Sys.{user}
use switch_v.User.Words.{IsUserWorld, KeepsFds, IsGuestFd, AfterOpen, user_run-IsMachine}
use switch_v.Tests.Data.{core_with, loaded_with, loaded_with-IsBytes, cleared-IsCore, two_cores}
use switch_v.Tests.Display.{window, lib}

abbrev pub Files : Type 0
Files = ℕ → Bool

abbrev set_file : ℤ → Bool → Files → Files
set_file (pos n) b files = update files n b
set_file (negsuc n) b files = files

abbrev ten : Time
ten = record { sec = pos 10; part = pos 5 }

abbrev no_file : Stat
no_file = record {
  st_dev = pos 0;
  st_ino = pos 0;
  st_mode = pos 0;
  st_nlink = pos 0;
  st_uid = pos 0;
  st_gid = pos 0;
  st_rdev = pos 0;
  st_size = pos 0;
  st_atim = ten;
  st_mtim = ten;
  st_ctim = ten;
  st_blksize = pos 0;
  st_blocks = pos 0;
}

-- One file can be open at a time, at 3.
abbrev open_third : Files → ℤ × Files
open_third files = if files 3 then (negsuc 0, files) else (pos 3, update files 3 true)

abbrev pub host : Host Files
host = record {
  close = λ fd files. (pos 0, set_file fd false files);
  lseek = λ fd offset whence files. (pos 0, files);
  read = λ fd n files. (pos 0, [], files);
  write = λ fd bytes files. (pos 0, files);
  fstat = λ fd files. (pos 0, no_file, files);
  gettimeofday = λ files. (pos 0, ten, [], files);
  clock_gettime = λ clock files. (pos 0, ten, files);
  open_path = λ path flags files. open_third files;
  open_new = λ path flags mode files. open_third files;
  dup2 = λ from to files. (to, set_file to true files);
  sdl_start = λ files. (
    record {
      starts = false;
      window = false;
      renderer = false;
      texture = false;
      allocates = false;
      mouse = false;
      fresh = λ _. 0;
    },
    files,
  );
  allocates = λ files. (true, files);
  sdl_lib = lib;
}

-- The emulator has its three streams, and no other descriptor below the guest's.
abbrev pub Streams : Files → Type 0
Streams files = (n : ℕ) → n < 512 → files n ≡ ltb n 3

abbrev pub OneMore : ℕ → Files → Type 0
OneMore fd files = (fd ≡ 3) × ((n : ℕ) → n < 512 → files n ≡ ltb n 4)

closes_guest :
    (fd : ℤ) (b : Bool) (files : Files)
    → IsGuestFd fd
    → Streams files
    → Streams (set_file fd b files)
closes_guest (pos n) b files g s = λ k l. ground (arith, s k l)
closes_guest (negsuc n) b files g s = s

opens_third :
    (files : Files)
    → Streams files
    → AfterOpen Streams OneMore (open_third files).0 (open_third files).1
opens_third files s =
    let third : files 3 ≡ false = s 3 (omega arith) in rw third (refl, λ k l. ground (arith, s k l))

pub host-KeepsFds : KeepsFds Streams OneMore host
host-KeepsFds = record {
  closes = λ fd files g s. closes_guest fd false files g s;
  seeks = λ fd offset whence files g s. s;
  reads = λ fd n files g s. s;
  writes = λ fd bytes files g s. s;
  stats = λ fd files g s. s;
  tells_day = λ files s. s;
  tells_time = λ clock files s. s;
  opens = λ path flags files s. opens_third files s;
  copies_up = λ n files l o. (o.0, λ k l'. ground (arith, o.1 k l'));
  closes_opened = λ n files o k l. ground (arith, o.0, o.1 k l);
  starts_sdl = λ files s. s;
  allocates = λ files s. s;
}

-- ECALL, with CLOSE in A7 and 0 in A0.
abbrev closer : Machine (UserWorld Files)
closer = record {
  core = core_with (update (λ _. 0) Reg.a7 57);
  mem = loaded_with 0x73;
  world = record { shared = two_cores; brk_limit = 32; display = window; host = λ n. ltb n 3 };
}

closer-IsMachine : IsMachine (IsUserWorld Streams) closer
closer-IsMachine = record {
  core = record { word = λ i. ground arith; kept = ground arith; brk = ground arith };
  bytes = loaded_with-IsBytes 0x73;
  world = record { shared = record { cores = λ i. cleared-IsCore }; own = λ n l. refl };
}

user_run-IsMachine_example :
    Holds
      (λ r. IsMachine (IsUserWorld Streams) (machine_of r))
      (vcore_run (user host) (true ∷ []) closer)
user_run-IsMachine_example =
    user_run-IsMachine Streams OneMore host host-KeepsFds (true ∷ []) closer closer-IsMachine
