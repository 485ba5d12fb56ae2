-- ===== src/Loader/Segments.antt =====
-- What a loaded segment leaves in the guest's memory, and the segments that are not loaded.
use switch_v.Common.{
  ℕ, ◌+◌, ◌-◌, ◌^◌, ◌<◌, ◌≤◌, ◌≡◌, refl, ap, fun_ext, ◌∙◌, arith, ◌&&◌, Bool, true, false,
}
use switch_v.Common.{ltb, leb, ◌==◌, if◌then◌else◌}
use switch_v.Common.Word.{u8, u32}
use switch_v.Common.Outcome.{ok, stop, undefined}
use switch_v.Memory.{
  Memory, read_bytes, fill_bytes, valid_addr, in_map, mem_rb_ptr_s, mem_wb_ptr_s, mem_wb_s,
}
use switch_v.Memory.Copies.{overlaid, length-read_bytes, write_bytes-read_bytes, fill_bytes_lem}
use switch_v.Elf.{ElfFile}
use switch_v.Loader.{load_segment, set_brk}
use switch_v.Memory.{mem_rw}
use switch_v.Cpu.Run.{VCoreInit}
use switch_v.Common.{◌*◌, none, Bool-cases, inl, inr}

-- A cell of the memory after a segment of `fsz` bytes of the file and `memsz` of the memory.
abbrev pub loaded : Memory → ℕ → ℕ → ℕ → ℕ → (ℕ → ℕ) → ℕ → ℕ
loaded d fsz memsz foff addr cell j =
    if leb addr j && ltb j (addr + fsz)
    then u8 (d.cell (foff + (j - addr)))
    else if leb addr j && ltb j (addr + memsz)
    then 0
    else cell j

pub in_map_ok :
    {A : Type 0} (m : Memory) (addr n : ℕ) (a : A) → addr + n ≤ m.size → in_map m addr n a ≡ ok a
in_map_ok m addr n a h = ground arith

pub mem_wb_ptr_s_read :
    (d m : Memory) (addr from n : ℕ)
    → addr + n ≤ m.size
    → mem_wb_ptr_s m addr (read_bytes d.cell from n)
      ≡ ok (record m { cell = overlaid m.cell addr n (λ k. u8 (d.cell (from + k))) })
unfolding mem_wb_ptr_s
mem_wb_ptr_s_read d m addr from n h =
    rw (length-read_bytes d.cell from n, write_bytes-read_bytes d.cell m.cell addr from n)
      (in_map_ok m addr n _ h)

cleared_lem :
    (d m : Memory) (fsz memsz foff addr : ℕ)
    → fsz ≤ memsz
    → overlaid
        (overlaid m.cell addr memsz (λ k. u8 (d.cell (foff + k))))
        (addr + fsz)
        (memsz - fsz)
        (λ k. u8 0)
      ≡ loaded d fsz memsz foff addr m.cell
cleared_lem d m fsz memsz foff addr h = fun_ext λ j. ground arith

whole_lem :
    (d m : Memory) (memsz foff addr : ℕ)
    → overlaid m.cell addr memsz (λ k. u8 (d.cell (foff + k)))
      ≡ loaded d memsz memsz foff addr m.cell
whole_lem d m memsz foff addr = fun_ext λ j. ground arith

-- A segment whose part in the file is no larger than its part in the memory, which ends before the
-- end of the memory, and of which the mapping of the file has as many bytes as the memory's part
-- takes, is loaded: its bytes of the file, then zeros, and all other cells are as they were.
pub load_segment_lem :
    (d m : Memory) (fsz memsz foff addr : ℕ)
    → fsz ≤ memsz
    → addr + memsz < m.size
    → m.size ≤ 2 ^ 32
    → foff + memsz ≤ d.size
    → load_segment d fsz memsz foff addr m
      ≡ ok (record m { cell = loaded d fsz memsz foff addr m.cell })
unfolding load_segment valid_addr mem_rb_ptr_s mem_wb_s
load_segment_lem d m fsz memsz foff addr h inside small file =
    let valid : ltb (addr + memsz) m.size ≡ true = ground arith in
    let to : u32 (addr + fsz) ≡ addr + fsz = omega arith in
    rw
      (
        valid,
        in_map_ok d foff memsz (read_bytes d.cell foff memsz) file,
        mem_wb_ptr_s_read d m addr foff memsz (omega arith),
        to,
      )
      (at (ltb fsz memsz) refl)
  where
    copied : Memory
    copied = record m { cell = overlaid m.cell addr memsz (λ k. u8 (d.cell (foff + k))) }

    at :
        (b : Bool)
        → ltb fsz memsz ≡ b
        → (if b
            then in_map copied
                (addr + fsz)
                (memsz - fsz)
                (record copied { cell = fill_bytes copied.cell (addr + fsz) 0 (memsz - fsz) })
            else ok copied)
          ≡ ok (record m { cell = loaded d fsz memsz foff addr m.cell })
    at true e =
        in_map_ok copied (addr + fsz) (memsz - fsz) _ (omega arith)
        ∙ ap (λ (c : ℕ → ℕ). ok (record m { cell = c }))
            (fill_bytes_lem copied.cell (addr + fsz) 0 (memsz - fsz)
              ∙ cleared_lem d m fsz memsz foff addr h)
    at false e =
        let whole : fsz ≡ memsz = ground arith in
        rw whole (ap (λ (c : ℕ → ℕ). ok (record m { cell = c })) (whole_lem d m memsz foff addr))

-- A segment that fits the memory and whose bytes of the file are all there is not loaded, but stops
-- the process, if the file's mapping ends before as many bytes as the memory's part takes.
pub load_segment-short :
    (d m : Memory) (fsz memsz foff addr : ℕ)
    → addr + memsz < m.size
    → foff + fsz ≤ d.size
    → d.size < foff + memsz
    → load_segment d fsz memsz foff addr m ≡ stop undefined
unfolding load_segment valid_addr mem_rb_ptr_s
load_segment-short d m fsz memsz foff addr inside file short =
    let valid : ltb (addr + memsz) m.size ≡ true = ground arith in
    let beyond : leb (foff + memsz) d.size ≡ false = ground arith in rw (valid, beyond)

-- A USER build that finds no `__BSS_END__` computes the break from the header whose index is the
-- size of all headers in bytes: with `n` headers of 32 bytes that is the header at 32 n - 1, and if
-- the file's mapping ends before it, the process is stopped.
pub set_brk-outside :
    (elf : ElfFile) (init : VCoreInit) (n : ℕ)
    → elf.prog_size ≡ 32 * n
    → elf.image.size < elf.programs + (32 * n - 1) * 32 + 12
    → set_brk elf init none ≡ stop undefined
unfolding set_brk mem_rw
set_brk-outside elf init n size short =
    let outside : leb (elf.programs + (elf.prog_size - 1) * 32 + 8 + 4) elf.image.size ≡ false =
      rw size (ground arith) in
    elim (Bool-cases (elf.prog_size == 0)) [ inl e ↦ rw e | inr e ↦ rw (e, outside) ]
