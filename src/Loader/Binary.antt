-- ===== src/Loader/Binary.antt =====
-- A flat binary, `ld_bin` of src/loader.c: the whole file is copied to the start of the memory.
use switch_v.Common.{ℕ, ◌+◌, ◌-◌, ◌≤◌, ◌<◌, ◌≡◌, ap, fun_ext, arith}
use switch_v.Common.{true, some, ltb, if◌then◌else◌}
use switch_v.Common.Word.{u8}
use switch_v.Common.Outcome.{ok}
use switch_v.Memory.{Memory, read_bytes, mem_rb_ptr_s}
use switch_v.Cpu.Run.{VCoreInit}
use switch_v.Elf.{Source, mapping, ld_read_and_map_file}
use switch_v.Loader.{ld_bin}
use switch_v.Loader.Segments.{in_map_ok, mem_wb_ptr_s_read}

-- A file that can be opened, measured and mapped.
abbrev pub file_of : ℕ → (ℕ → ℕ) → Source
file_of n bytes = record { opens = true; stats = true; st_size = n; mapped = some bytes }

-- The memory with the file at its start.
abbrev pub with_file : Memory → ℕ → (ℕ → ℕ) → Memory
with_file m n bytes = record m { cell = λ j. if ltb j n then u8 (bytes j) else m.cell j }

read_and_mapped :
    (n : ℕ) (bytes : ℕ → ℕ)
    → 0 < n
    → ld_read_and_map_file (file_of n bytes) ≡ ok (mapping n (some bytes))
unfolding ld_read_and_map_file
read_and_mapped n bytes some_bytes = ground arith

-- A file that is not empty and no larger than the memory is copied to the start of the memory, the
-- rest of which stays as it is, and the core is to start at 0.
pub ld_bin_lem :
    (n : ℕ) (bytes : ℕ → ℕ) (init : VCoreInit) (m : Memory)
    → 0 < n
    → n ≤ m.size
    → ld_bin (file_of n bytes) init m ≡ ok (record init { pc = 0 }, with_file m n bytes)
unfolding ld_bin mem_rb_ptr_s
ld_bin_lem n bytes init m some_bytes fits =
    let d : Memory = mapping n (some bytes) in
    rw
      (
        read_and_mapped n bytes some_bytes,
        in_map_ok d 0 n (read_bytes d.cell 0 n) (omega arith),
        mem_wb_ptr_s_read d m 0 0 n (omega arith),
      )
      (ap (λ (c : ℕ → ℕ). ok (record init { pc = 0 }, record m { cell = c }))
        (fun_ext λ j. let same : 0 + (j - 0) ≡ j = omega arith in rw same (ground arith)))
