-- ===== src/Loader.antt =====
-- The loader of guest programs, src/loader.c: the segments of a file, and the configuration of the
-- first core.
use switch_v.Common.{ℕ, zero, suc, ◌+◌, ◌-◌, ◌*◌, ◌/◌, ◌^◌, Bool, true, false, not}
use switch_v.Common.{Option, none, some, List, [], ◌∷◌, ltb, leb, ◌==◌, if◌then◌else◌}
use switch_v.Common.Word.{u32}
use switch_v.Common.Outcome.{Outcome, ok, stop, exits, undefined, ◌>>=◌}
use switch_v.Memory.{
  Memory, page_size, mem_rb, mem_rh, mem_rw, valid_addr, mem_rb_ptr_s, mem_wb_ptr_s, mem_wb_s,
}
use switch_v.Cpu.Run.{VCoreInit}
use switch_v.Elf.{
  Source, mapping, ElfFile, elf_of, ld_read_and_map_file, ld_elf_validate, ld_elf_section_names,
  ld_elf_symbols, ld_elf_getsym, e_phnum, e_entry, phdr_size,
}
pub mod Segments
pub mod Binary
pub mod Kept
pub mod Words

-- A segment that is to be loaded: `memsz` bytes are copied out of the file, of which it has `fsz`,
-- and those above `fsz` are cleared again.
unfoldable pub load_segment : Memory → ℕ → ℕ → ℕ → ℕ → Memory → Outcome Memory
load_segment d fsz memsz foff addr m =
    if not (valid_addr m.size addr memsz)
    then stop (exits 1)
    else (mem_rb_ptr_s d foff memsz >>= λ bytes. mem_wb_ptr_s m addr bytes >>= λ m'.
        if ltb fsz memsz then mem_wb_s m' (u32 (addr + fsz)) 0 (memsz - fsz) else ok m')

-- PT_LOAD is 1.
unfoldable pub load_program : Memory → ℕ → Memory → Outcome Memory
load_program d phdr m = mem_rw d phdr >>= λ p_type. if not (p_type == 1) then ok m else (do
  fsz ← mem_rw d (phdr + 16)
  memsz ← mem_rw d (phdr + 20)
  foff ← mem_rw d (phdr + 4)
  addr ← mem_rw d (phdr + 8)
  load_segment d fsz memsz foff addr m)

-- The loop of `ld_elf_seg`.
unfoldable pub load_programs : Memory → ℕ → ℕ → Memory → Outcome Memory
load_programs d phdr zero m = ok m
load_programs d phdr (suc n) m =
    load_program d phdr m >>= λ m'. load_programs d (phdr + phdr_size) n m'

unfoldable pub ld_elf_seg : ElfFile → Memory → Outcome Memory
ld_elf_seg elf m = e_phnum elf.image >>= λ n. load_programs elf.image elf.programs n m

unfoldable pub ld_bin : Source → VCoreInit → Memory → Outcome (VCoreInit × Memory)
ld_bin f init m = do
  d ← ld_read_and_map_file f
  bytes ← mem_rb_ptr_s d 0 f.st_size
  m' ← mem_wb_ptr_s m 0 bytes
  ok (record init { pc = 0 }, m')

-- "__global_pointer$" and "__BSS_END__".
abbrev pub global_pointer : List ℕ
global_pointer =
    95 ∷ 95 ∷ 103 ∷ 108 ∷ 111 ∷ 98 ∷ 97 ∷ 108 ∷ 95 ∷ 112 ∷ 111 ∷ 105 ∷ 110 ∷ 116 ∷ 101 ∷ 114 ∷ 36
    ∷ []

abbrev pub bss_end : List ℕ
bss_end = 95 ∷ 95 ∷ 66 ∷ 83 ∷ 83 ∷ 95 ∷ 69 ∷ 78 ∷ 68 ∷ 95 ∷ 95 ∷ []

abbrev pub set_gp : ElfFile → VCoreInit → Option ℕ → Outcome VCoreInit
set_gp elf init none = ok init
set_gp elf init (some sym) = mem_rw elf.image (sym + 4) >>= λ v. ok (record init { gp = v })

-- The part of USER builds. The last segment is looked for at the size of the headers in bytes, as
-- an index of headers; with no headers at all the index is below the file.
unfoldable pub set_brk : ElfFile → VCoreInit → Option ℕ → Outcome VCoreInit
set_brk elf init none =
    if elf.prog_size == 0
    then stop undefined
    else (mem_rw elf.image (elf.programs + (elf.prog_size - 1) * phdr_size + 8) >>= λ p_vaddr.
        mem_rw elf.image (elf.programs + (elf.prog_size - 1) * phdr_size + 20) >>= λ p_memsz.
        ok (record init { elf_brk = u32 (p_vaddr + p_memsz) }))
set_brk elf init (some sym) = mem_rw elf.image (sym + 4) >>= λ v. ok (record init { elf_brk = v })

unfoldable pub ld_elf : Bool → Source → VCoreInit → Memory → Outcome (VCoreInit × Memory)
ld_elf is_user f init m = do
  d ← ld_read_and_map_file f
  _ ← ld_elf_validate d
  raw ← elf_of d
  named ← ld_elf_section_names raw
  elf ← ld_elf_symbols named
  m' ← ld_elf_seg elf m
  entry ← e_entry d
  gp ← ld_elf_getsym elf global_pointer
  with_gp ← set_gp elf (record init { pc = entry }) gp
  with_brk ←
      (if is_user
        then (ld_elf_getsym elf bss_end >>= λ brk. set_brk elf with_gp brk)
        else ok with_gp)
  ok (with_brk, m')
