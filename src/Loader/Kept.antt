-- ===== src/Loader/Kept.antt =====
-- The segments that the loader of src/loader.c writes, whatever the file, leave bytes, and as many.
use switch_v.Common.{ℕ, zero, suc, ◌+◌, ◌-◌, refl}
use switch_v.Common.{not, ltb, ◌==◌}
use switch_v.Common.Word.{u32}
use switch_v.Common.Outcome.{Holds, Holds-if, Holds-after, Holds->>=, Holds-mono}
use switch_v.Memory.{Memory, mem_rw, mem_rb_ptr_s, mem_wb_ptr_s, mem_wb_s, valid_addr}
use switch_v.Memory.Laws.{IsBytes, Kept}
use switch_v.Memory.Words.{mem_wb_ptr_s-Kept, mem_wb_s-Kept, Kept-trans}
use switch_v.Elf.{ElfFile, e_phnum, phdr_size}
use switch_v.Loader.{load_segment, load_program, load_programs, ld_elf_seg}

load_segment-Kept :
    (d : Memory) (fsz memsz foff addr : ℕ) (m : Memory)
    → IsBytes m
    → Holds (Kept m) (load_segment d fsz memsz foff addr m)
unfolding load_segment
load_segment-Kept d fsz memsz foff addr m b =
    Holds-if (Kept m) (not (valid_addr m.size addr memsz)) _ _ tt (
      Holds-after (Kept m) (mem_rb_ptr_s d foff memsz) _ (λ bytes.
        Holds->>= (Kept m) (Kept m) (mem_wb_ptr_s m addr bytes) _ (mem_wb_ptr_s-Kept m addr bytes b)
          (λ m' k.
            Holds-if (Kept m) (ltb fsz memsz) _ _
              (Holds-mono (Kept m') (Kept m) (mem_wb_s m' (u32 (addr + fsz)) 0 (memsz - fsz))
                (λ m2 l. Kept-trans m m' m2 k l)
                (mem_wb_s-Kept m' (u32 (addr + fsz)) 0 (memsz - fsz) k.bytes))
              k)))

load_program-Kept :
    (d : Memory) (phdr : ℕ) (m : Memory) → IsBytes m → Holds (Kept m) (load_program d phdr m)
unfolding load_program
load_program-Kept d phdr m b = Holds-after (Kept m) (mem_rw d phdr) _ (λ p_type.
    Holds-if (Kept m) (not (p_type == 1)) _ _ (record { same_size = refl; bytes = b })
      (Holds-after (Kept m) (mem_rw d (phdr + 16)) _ (λ fsz.
        Holds-after (Kept m) (mem_rw d (phdr + 20)) _ (λ memsz.
          Holds-after (Kept m) (mem_rw d (phdr + 4)) _ (λ foff.
            Holds-after (Kept m) (mem_rw d (phdr + 8)) _
              (λ addr. load_segment-Kept d fsz memsz foff addr m b))))))

load_programs-Kept :
    (n : ℕ) (d : Memory) (phdr : ℕ) (m : Memory)
    → IsBytes m
    → Holds (Kept m) (load_programs d phdr n m)
unfolding load_programs
load_programs-Kept zero d phdr m b = record { same_size = refl; bytes = b }
load_programs-Kept (suc n) d phdr m b =
    Holds->>= (Kept m) (Kept m) (load_program d phdr m) _ (load_program-Kept d phdr m b) (λ m' k.
      Holds-mono (Kept m') (Kept m) (load_programs d (phdr + phdr_size) n m')
        (λ m2 l. Kept-trans m m' m2 k l) (load_programs-Kept n d (phdr + phdr_size) m' k.bytes))

pub ld_elf_seg-Kept : (elf : ElfFile) (m : Memory) → IsBytes m → Holds (Kept m) (ld_elf_seg elf m)
unfolding ld_elf_seg
ld_elf_seg-Kept elf m b =
    Holds-after (Kept m) (e_phnum elf.image) _
      (λ n. load_programs-Kept n elf.image elf.programs m b)
