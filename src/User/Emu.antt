-- ===== src/User/Emu.antt =====
-- The system calls of a guest program, `emu_system_call` of src/user/emu.c. A buffer that the host
-- would reach outside of the guest's memory stops the model.
use switch_v.Common.{ℕ, zero, suc, ◌+◌, ◌-◌, ◌^◌, Bool, List, [], ◌∷◌}
use switch_v.Common.{ltb, leb, ◌==◌, if◌then◌else◌}
use switch_v.Common.Int.{ℤ, pos, negsuc}
use switch_v.Common.Word.{u32, signed32, to_u32}
use switch_v.Common.Outcome.{Outcome, ok, stop, exits, undefined, ◌>>=◌}
use switch_v.Memory.{Memory, mem_rb_ptr_s, mem_wb_ptr_s}
use switch_v.Cpu.Reg
use switch_v.Cpu.State.{Machine, reg, write}
use switch_v.Sdl.{sdl_init, sdl_write_palette, sdl_write_fb, sdl_pull_events, sdl_shutdown}
use switch_v.User.Host.{Host, UserWorld, set_host, set_display}
use switch_v.User.Stat.{emu_copy_timespec, emu_copy_timeval, emu_copy_stat}

abbrev pub elf_fds_baseline : ℕ
elf_fds_baseline = 512

-- The result of a call that the guest's descriptor is refused.
abbrev pub failed : ℕ
failed = 2 ^ 32 - 1

-- `fd += ELF_FDS_BASELINE`, with the wrap-around of the hosts' `int`.
abbrev pub elf_fd : ℕ → ℤ
elf_fd a0 = signed32 (u32 (a0 + elf_fds_baseline))

-- `(int) a0 < 0`.
abbrev pub is_bad_fd : ℕ → Bool
is_bad_fd a0 = leb (2 ^ 31) a0

abbrev pub result : {H : Type 0} → Machine (UserWorld H) → ℤ → H → Machine (UserWorld H)
result m r h = set_host (write m Reg.a0 (to_u32 r)) h

abbrev pub set_mem : {H : Type 0} → Machine (UserWorld H) → Memory → Machine (UserWorld H)
set_mem m mem = record m { mem = mem }

-- The bytes of a text up to its end; `n` is how many are left in the memory.
unfoldable pub read_path : (ℕ → ℕ) → ℕ → ℕ → Outcome (List ℕ)
read_path cell addr zero = stop undefined
read_path cell addr (suc n) =
    let rest = read_path cell (addr + 1) n in
    if cell addr == 0 then ok [] else (rest >>= λ s. ok (cell addr ∷ s))

unfoldable pub emu_brk : {H : Type 0} → Machine (UserWorld H) → Machine (UserWorld H)
emu_brk m =
    let a0 = reg m Reg.a0 in
    if leb m.world.brk_limit a0
    then write m Reg.a0 failed
    else (let moved = if ltb 0 a0 then record m { core = record m.core { elf_brk = a0 } } else m in
        write moved Reg.a0 moved.core.elf_brk)

module _ {H : Type 0} (host : Host H) where
  abbrev pub on_fd :
      Machine (UserWorld H)
      → (ℤ → Outcome (Machine (UserWorld H)))
      → Outcome (Machine (UserWorld H))
  on_fd m op =
      if is_bad_fd (reg m Reg.a0) then ok (write m Reg.a0 failed) else op (elf_fd (reg m Reg.a0))

  unfoldable pub emu_close : Machine (UserWorld H) → Outcome (Machine (UserWorld H))
  emu_close m = on_fd m (λ fd. let (r, h) = host.close fd m.world.host in ok (result m r h))

  unfoldable pub emu_lseek : Machine (UserWorld H) → Outcome (Machine (UserWorld H))
  emu_lseek m = on_fd m (λ fd.
      let (r, h) = host.lseek fd (reg m Reg.a1) (signed32 (reg m Reg.a2)) m.world.host in
      ok (result m r h))

  unfoldable pub emu_read : Machine (UserWorld H) → Outcome (Machine (UserWorld H))
  emu_read m = on_fd m (λ fd.
      let (r, bytes, h) = host.read fd (reg m Reg.a2) m.world.host in
      mem_wb_ptr_s m.mem (reg m Reg.a1) bytes >>= λ mem. ok (result (set_mem m mem) r h))

  unfoldable pub emu_write : Machine (UserWorld H) → Outcome (Machine (UserWorld H))
  emu_write m = on_fd m (λ fd. mem_rb_ptr_s m.mem (reg m Reg.a1) (reg m Reg.a2) >>= λ bytes.
      let (r, h) = host.write fd bytes m.world.host in ok (result m r h))

  -- The structure is copied whatever `fstat` returns.
  unfoldable pub emu_fstat : Machine (UserWorld H) → Outcome (Machine (UserWorld H))
  emu_fstat m = on_fd m (λ fd.
      let (r, fs, h) = host.fstat fd m.world.host in
      emu_copy_stat m.mem (reg m Reg.a1) fs >>= λ mem. ok (result (set_mem m mem) r h))

  -- The pointer to the time is A0, which holds the result by then; A1 gets the time zone.
  unfoldable pub emu_gettimeofday : Machine (UserWorld H) → Outcome (Machine (UserWorld H))
  emu_gettimeofday m =
      let (r, tv, zone, h) = host.gettimeofday m.world.host in
      mem_wb_ptr_s m.mem (reg m Reg.a1) zone >>= λ mem.
      emu_copy_timeval mem (to_u32 r) tv >>= λ mem'. ok (result (set_mem m mem') r h)

  unfoldable pub emu_clock_gettime : Machine (UserWorld H) → Outcome (Machine (UserWorld H))
  emu_clock_gettime m =
      let (r, ts, h) = host.clock_gettime (signed32 (reg m Reg.a0)) m.world.host in
      emu_copy_timespec m.mem (reg m Reg.a1) ts >>= λ mem. ok (result (set_mem m mem) r h)

  -- After an `open` that gave `fd`.
  abbrev pub moved_up : Machine (UserWorld H) → ℤ → H → Outcome (Machine (UserWorld H))
  moved_up m (negsuc n) h = ok (result m (negsuc n) h)
  moved_up m (pos fd) h =
      if leb elf_fds_baseline fd
      then stop (exits 1)
      else (let (r, h') = host.dup2 (pos fd) (pos (elf_fds_baseline + fd)) h in
          let (r', h'') = host.close (pos fd) h' in ok (result m (pos fd) h''))

  unfoldable pub emu_open : Machine (UserWorld H) → Outcome (Machine (UserWorld H))
  emu_open m = read_path m.mem.cell (reg m Reg.a0) (m.mem.size - reg m Reg.a0) >>= λ path.
      let (fd, h) = host.open_path path (signed32 (reg m Reg.a1)) m.world.host in moved_up m fd h

  -- The result of `sdl_init` is dropped.
  unfoldable pub emu_sdl_init : Machine (UserWorld H) → Outcome (Machine (UserWorld H))
  emu_sdl_init m =
      let (start, h) = host.sdl_start m.world.host in
      sdl_init start (signed32 (reg m Reg.a1)) (signed32 (reg m Reg.a2)) (reg m Reg.a3)
        m.world.display
      >>= λ p. ok (set_host (set_display m p.1) h)

  unfoldable pub emu_sdl_write_palette : Machine (UserWorld H) → Outcome (Machine (UserWorld H))
  emu_sdl_write_palette m =
      let (allocates, h) = host.allocates m.world.host in
      sdl_write_palette allocates m.mem (reg m Reg.a0) (reg m Reg.a1) m.world.display >>= λ d.
      ok (set_host (set_display m d) h)

  unfoldable pub emu_sdl_write_fb : Machine (UserWorld H) → Outcome (Machine (UserWorld H))
  emu_sdl_write_fb m = sdl_write_fb m.mem (reg m Reg.a0) m.world.display >>= λ p.
      ok (set_display (write m Reg.a0 (to_u32 p.0)) p.1)

  unfoldable pub emu_sdl_pull_events : Machine (UserWorld H) → Outcome (Machine (UserWorld H))
  emu_sdl_pull_events m =
      sdl_pull_events host.sdl_lib (reg m Reg.a0) (reg m Reg.a1) (reg m Reg.a2) m.mem
        m.world.display
      >>= λ p. ok (set_display (set_mem (write m Reg.a0 (u32 p.0)) p.1) p.2)

  -- The `switch` over A7.
  unfoldable pub emu_system_call : Machine (UserWorld H) → Outcome (Machine (UserWorld H))
  emu_system_call m =
      let n = reg m Reg.a7 in
      if n == 57
      then emu_close m
      else if n == 62
      then emu_lseek m
      else if n == 63
      then emu_read m
      else if n == 64
      then emu_write m
      else if n == 80
      then emu_fstat m
      else if n == 169
      then emu_gettimeofday m
      else if n == 93
      then stop (exits (reg m Reg.a0))
      else if n == 403
      then emu_clock_gettime m
      else if n == 1024
      then emu_open m
      else if n == 214
      then ok (emu_brk m)
      else if n == 2100
      then emu_sdl_init m
      else if n == 2101
      then emu_sdl_write_palette m
      else if n == 2102
      then emu_sdl_write_fb m
      else if n == 2104
      then sdl_shutdown
      else if n == 2103
      then emu_sdl_pull_events m
      else stop (exits 1)
