-- ===== src/User/Std.antt =====
-- The standard streams of a guest program, `emu_std` of src/user/emu.c.
use switch_v.Common.{ℕ, zero, ◌+◌, ◌≡◌, Bool, true, false}
use switch_v.Common.{Option, none, some, List, if◌then◌else◌}
use switch_v.Common.Int.{ℤ, pos, negsuc}
use switch_v.Common.Outcome.{Outcome, ok, stop, exits, ◌>>=◌}
use switch_v.User.Host.{Host}
use switch_v.User.Emu.{elf_fds_baseline}

-- `ret == -1`.
abbrev pub is_minus_one : ℤ → Bool
is_minus_one (negsuc zero) = true
is_minus_one _ = false

module _ {H : Type 0} (host : Host H) where
  -- A file that `open` gave `fd` for is copied to a descriptor of the guest: what `dup2` returns.
  abbrev pub redirected : ℤ → ℕ → H → Outcome (ℤ × H)
  redirected fd n h =
      if is_minus_one fd
      then stop (exits 1)
      else (let (ret, h') = host.dup2 fd (pos (elf_fds_baseline + n)) h in
          ok (ret, (host.close fd h').1))

  abbrev pub if_set : ℤ × H → Outcome (ℤ × H)
  if_set (ret, h) = if is_minus_one ret then stop (exits 1) else ok (ret, h)

  unfoldable pub std_in : Option (List ℕ) → H → Outcome (ℤ × H)
  std_in none h = ok (host.dup2 (pos 0) (pos elf_fds_baseline) h)
  std_in (some path) h = let (fd, h') = host.open_path path (pos 0) h in redirected fd 0 h'

  -- O_WRONLY | O_TRUNC | O_CREAT, and the permissions 0644.
  abbrev pub open_output : List ℕ → H → ℤ × H
  open_output path h = host.open_new path (pos 577) 420 h

  -- With no file the result of `dup2` is dropped, and the one of before is tested again.
  unfoldable pub std_out : ℕ → Option (List ℕ) → ℤ → H → Outcome (ℤ × H)
  std_out n none ret h = ok (ret, (host.dup2 (pos n) (pos (elf_fds_baseline + n)) h).1)
  std_out n (some path) ret h = let (fd, h') = open_output path h in redirected fd n h'

  unfoldable pub emu_std : Option (List ℕ) → Option (List ℕ) → Option (List ℕ) → H → Outcome H
  emu_std elf_stdin elf_stdout elf_stderr h = do
    input ← std_in elf_stdin h
    in_set ← if_set input
    output ← std_out 1 elf_stdout in_set.0 in_set.1
    out_set ← if_set output
    errors ← std_out 2 elf_stderr out_set.0 out_set.1
    err_set ← if_set errors
    ok err_set.1

  -- With no files named, the guest's first three descriptors are made copies of the emulator's, in
  -- order; if the first copy succeeds the call does, whatever the other two return.
  pub emu_std_lem :
      (h : H)
      → is_minus_one (host.dup2 (pos 0) (pos 512) h).0 ≡ false
      → emu_std none none none h
        ≡ ok
            (host.dup2
              (pos 2)
              (pos 514)
              (host.dup2 (pos 1) (pos 513) (host.dup2 (pos 0) (pos 512) h).1).1).1
  unfolding emu_std std_in std_out
  emu_std_lem h set = rw (set, set, set)
