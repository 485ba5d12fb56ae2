-- ===== src/Loader/Words.antt =====
-- What the loader of src/loader.c keeps, whatever the file: bytes are bytes, words are words, and
-- the parts of the configuration that it does not set are as they were.
use switch_v.Common.{ℕ, ◌+◌, ◌-◌, ◌*◌, ◌^◌, ◌<◌, ◌≡◌, arith}
use switch_v.Common.{Bool, not, Option, none, some, leb, ◌==◌, if◌then◌else◌}
use switch_v.Common.Outcome.{Outcome, ok, ◌>>=◌, Holds, Holds-if, Holds-after, Holds->>=}
use switch_v.Memory.{Memory, mem_rw, mem_rb_ptr_s, mem_wb_ptr_s}
use switch_v.Memory.Laws.{IsBytes, Kept}
use switch_v.Memory.Words.{mem_rw-Holds, mem_wb_ptr_s-Kept}
use switch_v.Cpu.Run.{VCoreInit}
use switch_v.Elf.{
  Source, mapping, ElfFile, elf_of, ld_read_and_map_file, ld_elf_validate, ld_elf_section_names,
  ld_elf_symbols, ld_elf_getsym, e_phoff, e_shoff, e_phentsize, e_phnum, e_shentsize, e_shnum,
  e_entry, phdr_size, e_shstrndx, shdr_size, ld_elf_getsect, found_or_exit, divided, symtab, strtab,
}
use switch_v.Loader.Kept.{ld_elf_seg-Kept}
use switch_v.Loader.{ld_elf_seg, ld_bin, ld_elf, set_gp, set_brk, global_pointer, bss_end}

-- The bytes of a file.
abbrev pub HasBytes : Source → Type 0
HasBytes f = (n : ℕ) → IsBytes (mapping n f.mapped)

-- A configuration that a loader may make of `base`.
pub record IsInit (base init : VCoreInit) : Type 0 where
  pub pc : init.pc < 2 ^ 32
  pub sp : init.sp ≡ base.sp
  pub id : init.id ≡ base.id
  pub opaque : init.opaque ≡ base.opaque
  pub gp : init.gp < 2 ^ 32
  pub elf_brk : init.elf_brk < 2 ^ 32

-- The structures that are read of a file keep its image.
abbrev HasImage : ElfFile → Type 0
HasImage elf = IsBytes elf.image

elf_of-HasImage : (d : Memory) → IsBytes d → Holds HasImage (elf_of d)
elf_of-HasImage d b = Holds-after HasImage (e_phoff d) _ (λ phoff.
    Holds-after HasImage (e_shoff d) _ (λ shoff.
      Holds-after HasImage (e_phentsize d) _ (λ phentsize.
        Holds-after HasImage (e_phnum d) _ (λ phnum.
          Holds-after HasImage (e_shentsize d) _
            (λ shentsize. Holds-after HasImage (e_shnum d) _ (λ shnum. b))))))

ld_elf_section_names-HasImage :
    (elf : ElfFile) → HasImage elf → Holds HasImage (ld_elf_section_names elf)
unfolding ld_elf_section_names
ld_elf_section_names-HasImage elf b = Holds-after HasImage (e_shstrndx elf.image) _ (λ shstrndx.
    Holds-after HasImage
      (if leb 65280 shstrndx then mem_rw elf.image (elf.sections + 24) else ok shstrndx) _
      (λ idx.
        Holds-after HasImage (mem_rw elf.image (elf.sections + idx * shdr_size + 16)) _
          (λ sh_offset. b)))

ld_elf_symbols-HasImage : (elf : ElfFile) → HasImage elf → Holds HasImage (ld_elf_symbols elf)
unfolding ld_elf_symbols
ld_elf_symbols-HasImage elf b = Holds-after HasImage (ld_elf_getsect elf symtab) _ (λ found.
    Holds-after HasImage (found_or_exit found) _ (λ sect.
      Holds-after HasImage (mem_rw elf.image (sect + 20)) _ (λ sh_size.
        Holds-after HasImage (mem_rw elf.image (sect + 36)) _ (λ sh_entsize.
          Holds-after HasImage (divided sh_size sh_entsize) _ (λ symb_size.
            Holds-after HasImage (mem_rw elf.image (sect + 16)) _ (λ symbols.
              Holds-after HasImage (ld_elf_getsect elf strtab) _ (λ found'.
                Holds-after HasImage (found_or_exit found') _ (λ sect'.
                  Holds-after HasImage (mem_rw elf.image (sect' + 16)) _ (λ names. b)))))))))

module _ (base : VCoreInit) where
  set_gp-IsInit :
      (elf : ElfFile) (init : VCoreInit) (sym : Option ℕ)
      → HasImage elf
      → IsInit base init
      → Holds (IsInit base) (set_gp elf init sym)
  set_gp-IsInit elf init none b w = w
  set_gp-IsInit elf init (some sym) b w =
      Holds->>= (λ v. v < 2 ^ 32) (IsInit base) (mem_rw elf.image (sym + 4)) _
        (mem_rw-Holds elf.image (sym + 4) b)
        (λ v h. record {
          pc = w.pc;
          sp = w.sp;
          id = w.id;
          opaque = w.opaque;
          gp = h;
          elf_brk = w.elf_brk;
        })

  with_brk :
      (init : VCoreInit) (v : ℕ)
      → IsInit base init
      → v < 2 ^ 32
      → IsInit base (record init { elf_brk = v })
  with_brk init v w h = record {
    pc = w.pc;
    sp = w.sp;
    id = w.id;
    opaque = w.opaque;
    gp = w.gp;
    elf_brk = h;
  }

  set_brk-IsInit :
      (elf : ElfFile) (init : VCoreInit) (sym : Option ℕ)
      → HasImage elf
      → IsInit base init
      → Holds (IsInit base) (set_brk elf init sym)
  unfolding set_brk
  set_brk-IsInit elf init none b w = Holds-if (IsInit base) (elf.prog_size == 0) _ _ tt (
      Holds-after (IsInit base)
        (mem_rw elf.image (elf.programs + (elf.prog_size - 1) * phdr_size + 8)) _
        (λ p_vaddr.
          Holds-after (IsInit base)
            (mem_rw elf.image (elf.programs + (elf.prog_size - 1) * phdr_size + 20)) _
            (λ p_memsz. with_brk init _ w (omega arith))))
  set_brk-IsInit elf init (some sym) b w =
      Holds->>= (λ v. v < 2 ^ 32) (IsInit base) (mem_rw elf.image (sym + 4)) _
        (mem_rw-Holds elf.image (sym + 4) b) (λ v h. with_brk init v w h)

  with_entry :
      (init : VCoreInit) (v : ℕ)
      → IsInit base init
      → v < 2 ^ 32
      → IsInit base (record init { pc = v })
  with_entry init v w h = record {
    pc = h;
    sp = w.sp;
    id = w.id;
    opaque = w.opaque;
    gp = w.gp;
    elf_brk = w.elf_brk;
  }

  abbrev brk_of : Bool → ElfFile → VCoreInit → Outcome VCoreInit
  brk_of is_user elf init =
      if is_user then (ld_elf_getsym elf bss_end >>= λ brk. set_brk elf init brk) else ok init

  brk_of-IsInit :
      (is_user : Bool) (elf : ElfFile) (init : VCoreInit)
      → HasImage elf
      → IsInit base init
      → Holds (IsInit base) (brk_of is_user elf init)
  brk_of-IsInit is_user elf init b w =
      Holds-if (IsInit base) is_user _ _
        (Holds-after (IsInit base) (ld_elf_getsym elf bss_end) _
          (λ brk. set_brk-IsInit elf init brk b w))
        w

  -- What the loaders give: a configuration, and the memory of before with other bytes.
  abbrev pub IsLoad : Memory → VCoreInit × Memory → Type 0
  IsLoad m p = IsInit base p.0 × Kept m p.1

  ld_read_and_map_file-Holds : (f : Source) → HasBytes f → Holds IsBytes (ld_read_and_map_file f)
  unfolding ld_read_and_map_file
  ld_read_and_map_file-Holds f b = Holds-if IsBytes (not f.opens) _ _ tt (
      Holds-if IsBytes (not f.stats) _ _ tt
        (Holds-if IsBytes (f.st_size == 0) _ _ tt (b f.st_size)))

  pub ld_bin-IsLoad :
      (f : Source) (init : VCoreInit) (m : Memory)
      → IsBytes m
      → IsInit base init
      → Holds (IsLoad m) (ld_bin f init m)
  unfolding ld_bin
  ld_bin-IsLoad f init m b w = Holds-after (IsLoad m) (ld_read_and_map_file f) _ (λ d.
      Holds-after (IsLoad m) (mem_rb_ptr_s d 0 f.st_size) _ (λ bytes.
        Holds->>= (Kept m) (IsLoad m) (mem_wb_ptr_s m 0 bytes) _ (mem_wb_ptr_s-Kept m 0 bytes b)
          (λ m' k. (with_entry init 0 w (omega arith), k))))

  pub ld_elf-IsLoad :
      (is_user : Bool) (f : Source) (init : VCoreInit) (m : Memory)
      → HasBytes f
      → IsBytes m
      → IsInit base init
      → Holds (IsLoad m) (ld_elf is_user f init m)
  unfolding ld_elf
  ld_elf-IsLoad is_user f init m source b w =
      Holds->>= IsBytes (IsLoad m) (ld_read_and_map_file f) _ (ld_read_and_map_file-Holds f source)
        (λ d image. Holds-after (IsLoad m) (ld_elf_validate d) _ (λ valid.
          Holds->>= HasImage (IsLoad m) (elf_of d) _ (elf_of-HasImage d image) (λ raw i1.
            Holds->>= HasImage (IsLoad m) (ld_elf_section_names raw) _
              (ld_elf_section_names-HasImage raw i1)
              (λ named i2.
                Holds->>= HasImage (IsLoad m) (ld_elf_symbols named) _
                  (ld_elf_symbols-HasImage named i2)
                  (λ elf i3.
                    Holds->>= (Kept m) (IsLoad m) (ld_elf_seg elf m) _ (ld_elf_seg-Kept elf m b)
                      (λ m' k.
                        Holds->>= (λ v. v < 2 ^ 32) (IsLoad m) (e_entry d) _
                          (mem_rw-Holds d 24 image)
                          (λ entry h.
                            Holds-after (IsLoad m) (ld_elf_getsym elf global_pointer) _ (λ gp.
                              Holds->>= (IsInit base) (IsLoad m)
                                (set_gp elf (record init { pc = entry }) gp) _
                                (set_gp-IsInit elf (record init { pc = entry }) gp i3
                                  (with_entry init entry w h))
                                (λ with_gp g.
                                  Holds->>= (IsInit base) (IsLoad m) (brk_of is_user elf with_gp) _
                                    (brk_of-IsInit is_user elf with_gp i3 g)
                                    (λ done e. (e, k)))))))))))
