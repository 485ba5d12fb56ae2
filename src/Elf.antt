-- ===== src/Elf.antt =====
-- The file of a guest program and its ELF structures, in src/loader.c. The file's bytes and whether
-- each call on it succeeds are a parameter (`Source`); its mapping is a memory of the host, of whole
-- pages, which is read by the functions that read the guest's, and a read outside of it stops the
-- process (`undefined`). The structures are read at their offsets in it.
use switch_v.Common.{ℕ, zero, suc, ◌+◌, ◌-◌, ◌*◌, ◌/◌, ◌^◌, Bool, true, false, not}
use switch_v.Common.{Option, none, some, List, [], ◌∷◌, ltb, leb, ◌==◌, if◌then◌else◌}
use switch_v.Common.Word.{u32}
use switch_v.Common.Outcome.{Outcome, ok, stop, exits, undefined, ◌>>=◌}
use switch_v.Memory.{
  Memory, page_size, mem_rb, mem_rh, mem_rw, valid_addr, mem_rb_ptr_s, mem_wb_ptr_s, mem_wb_s,
}
pub mod Header
pub mod Names

-- `mapped` is none if `mmap` fails, whose result is then no NULL.
pub record Source : Type 0 where
  pub opens : Bool
  pub stats : Bool
  pub st_size : ℕ
  pub mapped : Option (ℕ → ℕ)

-- A mapping ends with its page, and holds zeros after the file.
abbrev pub mapping : ℕ → Option (ℕ → ℕ) → Memory
mapping n none = record { size = 0; cell = λ _. 0 }
mapping n (some bytes) = record {
  size = (n + (page_size - 1)) / page_size * page_size;
  cell = λ a. if ltb a n then bytes a else 0;
}

unfoldable pub ld_read_and_map_file : Source → Outcome Memory
ld_read_and_map_file f =
    if not f.opens
    then stop (exits 1)
    else if not f.stats
    then stop (exits 1)
    else if f.st_size == 0
    then stop (exits 1)
    else ok (mapping f.st_size f.mapped)

-- `Elf_File`; the pointers are offsets in the mapping.
pub record ElfFile : Type 0 where
  pub prog_size : ℕ
  pub sect_size : ℕ
  pub symb_size : ℕ
  pub image : Memory
  pub programs : ℕ
  pub sections : ℕ
  pub symbols : ℕ
  pub symbols_names : ℕ
  pub sections_names : ℕ

-- The fields of `Elf32_Ehdr`.
abbrev pub e_type : Memory → Outcome ℕ
e_type d = mem_rh d 16

abbrev pub e_machine : Memory → Outcome ℕ
e_machine d = mem_rh d 18

abbrev pub e_entry : Memory → Outcome ℕ
e_entry d = mem_rw d 24

abbrev pub e_phoff : Memory → Outcome ℕ
e_phoff d = mem_rw d 28

abbrev pub e_shoff : Memory → Outcome ℕ
e_shoff d = mem_rw d 32

abbrev pub e_phentsize : Memory → Outcome ℕ
e_phentsize d = mem_rh d 42

abbrev pub e_phnum : Memory → Outcome ℕ
e_phnum d = mem_rh d 44

abbrev pub e_shentsize : Memory → Outcome ℕ
e_shentsize d = mem_rh d 46

abbrev pub e_shnum : Memory → Outcome ℕ
e_shnum d = mem_rh d 48

abbrev pub e_shstrndx : Memory → Outcome ℕ
e_shstrndx d = mem_rh d 50

-- `VALIDATE`, of a field that is read and a test of it.
abbrev pub validate : Outcome ℕ → (ℕ → Bool) → Outcome ℕ
validate field test = field >>= λ v. if test v then ok v else stop (exits 1)

abbrev pub is_set : ℕ → Bool
is_set v = not (v == 0)

-- The class is tested twice, and both constants are 1; the encoding, at 5, is not tested.
unfoldable pub ld_elf_validate : Memory → Outcome ℕ
ld_elf_validate d = do
  _ ← validate (mem_rb d 0) (λ v. v == 127)
  _ ← validate (mem_rb d 1) (λ v. v == 69)
  _ ← validate (mem_rb d 2) (λ v. v == 76)
  _ ← validate (mem_rb d 3) (λ v. v == 70)
  _ ← validate (mem_rb d 4) (λ v. v == 1)
  _ ← validate (mem_rb d 4) (λ v. v == 1)
  _ ← validate (mem_rb d 6) (λ v. v == 1)
  _ ← validate (mem_rb d 7) (λ v. v == 0)
  _ ← validate (mem_rb d 8) (λ v. v == 0)
  _ ← validate (e_type d) (λ v. v == 2)
  _ ← validate (e_machine d) (λ v. v == 243)
  _ ← validate (e_entry d) is_set
  _ ← validate (e_phoff d) is_set
  _ ← validate (e_shoff d) is_set
  validate (e_shstrndx d) is_set

-- `strcmp(text, s) == 0`, of a text with no zero in it.
unfoldable pub same_text : Memory → ℕ → List ℕ → Outcome Bool
same_text d addr [] = mem_rb d addr >>= λ b. ok (b == 0)
same_text d addr (c ∷ cs) =
    let rest = same_text d (addr + 1) cs in mem_rb d addr >>= λ b. if b == c then rest else ok false

-- The loop of `ld_elf_getsect` and `ld_elf_getsym`: the first of the structures of `size` bytes
-- from `entry` on whose first word is the offset of the name.
unfoldable pub find_entry : Memory → ℕ → ℕ → List ℕ → ℕ → ℕ → Outcome (Option ℕ)
find_entry d names size name entry zero = ok none
find_entry d names size name entry (suc n) =
    let rest = find_entry d names size name (entry + size) n in
    mem_rw d entry >>= λ offset.
    same_text d (names + offset) name >>= λ found. if found then ok (some entry) else rest

abbrev pub shdr_size : ℕ
shdr_size = 40

abbrev pub sym_size : ℕ
sym_size = 16

abbrev pub phdr_size : ℕ
phdr_size = 32

unfoldable pub ld_elf_getsect : ElfFile → List ℕ → Outcome (Option ℕ)
ld_elf_getsect elf name =
    e_shnum elf.image >>= λ n. find_entry elf.image elf.sections_names shdr_size name elf.sections n

unfoldable pub ld_elf_getsym : ElfFile → List ℕ → Outcome (Option ℕ)
ld_elf_getsym elf name =
    find_entry elf.image elf.symbols_names sym_size name elf.symbols elf.symb_size

unfoldable pub ld_elf_section_names : ElfFile → Outcome ElfFile
ld_elf_section_names elf = do
  shstrndx ← e_shstrndx elf.image
  idx ← if leb 65280 shstrndx then mem_rw elf.image (elf.sections + 24) else ok shstrndx
  sh_offset ← mem_rw elf.image (elf.sections + idx * shdr_size + 16)
  ok (record elf { sections_names = sh_offset })

-- ".symtab" and ".strtab".
abbrev pub symtab : List ℕ
symtab = 46 ∷ 115 ∷ 121 ∷ 109 ∷ 116 ∷ 97 ∷ 98 ∷ []

abbrev pub strtab : List ℕ
strtab = 46 ∷ 115 ∷ 116 ∷ 114 ∷ 116 ∷ 97 ∷ 98 ∷ []

abbrev pub found_or_exit : Option ℕ → Outcome ℕ
found_or_exit none = stop (exits 1)
found_or_exit (some sect) = ok sect

-- The signal of a division by zero stops the process, like that of a bad access.
abbrev pub divided : ℕ → ℕ → Outcome ℕ
divided a b = if b == 0 then stop undefined else ok (a / b)

unfoldable pub ld_elf_symbols : ElfFile → Outcome ElfFile
ld_elf_symbols elf = do
  found ← ld_elf_getsect elf symtab
  sect ← found_or_exit found
  sh_size ← mem_rw elf.image (sect + 20)
  sh_entsize ← mem_rw elf.image (sect + 36)
  symb_size ← divided sh_size sh_entsize
  symbols ← mem_rw elf.image (sect + 16)
  found' ← ld_elf_getsect elf strtab
  sect' ← found_or_exit found'
  names ← mem_rw elf.image (sect' + 16)
  ok (record elf { symb_size = symb_size; symbols = symbols; symbols_names = names })

abbrev pub elf_of : Memory → Outcome ElfFile
elf_of d = do
  phoff ← e_phoff d
  shoff ← e_shoff d
  phentsize ← e_phentsize d
  phnum ← e_phnum d
  shentsize ← e_shentsize d
  shnum ← e_shnum d
  ok (record {
    prog_size = phentsize * phnum;
    sect_size = shentsize * shnum;
    symb_size = 0;
    image = d;
    programs = phoff;
    sections = shoff;
    symbols = 0;
    symbols_names = 0;
    sections_names = 0;
  })
