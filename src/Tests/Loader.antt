-- ===== src/Tests/Loader.antt =====
-- A small program file, a segment, and a command line.
use switch_v.Common.{ℕ, zero, suc, ◌+◌, ◌^◌, ◌≡◌, refl, ap, true, false, List, [], ◌∷◌, ◌-◌, arith}
use switch_v.Common.Int.{pos}
use switch_v.Common.Outcome.{ok, stop, undefined, Holds}
use switch_v.Memory.{Memory, length, write_bytes, mem_rb, mem_rh, mem_rw}
use switch_v.Elf.{ld_elf_validate, find_entry, same_text}
use switch_v.Elf.Names.{IsFound, find_entry-IsFound}
use switch_v.Common.{update, some}
use switch_v.Loader.{load_segment}
use switch_v.Loader.Segments.{loaded, load_segment_lem}
use switch_v.Elf.Header.{IsRiscv, ld_elf_validate-IsRiscv}
use switch_v.Args.{opt_c, opt_m, opt_f, ctx_init}
use switch_v.Args.Limits.{IsLimited, ctx_init-IsLimited}
use switch_v.User.Args.{count_tokens, emu_args}
use switch_v.User.Args.{emu_args-overrun}
use switch_v.User.Args.Fits.{HasArgs, emu_args-fits}
use switch_v.User.Args.Split.{Word, joined}
use switch_v.Tests.Data.{blank}

abbrev counting : Memory
counting = record { size = 64; cell = λ a. a }

load_segment_lem_example :
    load_segment counting 4 8 16 20 blank
    ≡ ok (record blank { cell = loaded counting 4 8 16 20 blank.cell })
load_segment_lem_example =
    load_segment_lem counting blank 4 8 16 20 (omega arith) (omega arith) (omega arith)
      (omega arith)

-- An executable with one program header and three sections.
abbrev header : List ℕ
header =
    127 ∷ 69 ∷ 76 ∷ 70 ∷ 1 ∷ 1 ∷ 1 ∷ 0 ∷ 0 ∷ 0 ∷ 0 ∷ 0 ∷ 0 ∷ 0 ∷ 0 ∷ 0 ∷ 2 ∷ 0 ∷ 243 ∷ 0 ∷ 1 ∷ 0 ∷ 0
    ∷ 0 ∷ 0 ∷ 16 ∷ 0 ∷ 0 ∷ 52 ∷ 0 ∷ 0 ∷ 0 ∷ 84 ∷ 0 ∷ 0 ∷ 0 ∷ 0 ∷ 0 ∷ 0 ∷ 0 ∷ 52 ∷ 0 ∷ 32 ∷ 0 ∷ 1 ∷ 0
    ∷ 40 ∷ 0 ∷ 3 ∷ 0 ∷ 2 ∷ 0 ∷ []

abbrev program : Memory
program = record { size = 4096; cell = write_bytes (λ _. 0) 0 header }

program_accepted : ld_elf_validate program ≡ ok 2
unfolding ld_elf_validate mem_rb mem_rh mem_rw write_bytes
program_accepted = refl

ld_elf_validate-IsRiscv_example : IsRiscv program
ld_elf_validate-IsRiscv_example = ld_elf_validate-IsRiscv program 2 program_accepted

ctx_init-IsLimited_example :
    Holds
      (IsLimited false)
      (ctx_init false (opt_m (pos 16) ∷ opt_c (pos 2) ∷ opt_f (97 ∷ 32 ∷ 98 ∷ []) ∷ []))
ctx_init-IsLimited_example =
    ctx_init-IsLimited false (opt_m (pos 16) ∷ opt_c (pos 2) ∷ opt_f (97 ∷ 32 ∷ 98 ∷ []) ∷ [])

abbrev arguments : List Word
arguments = record { first = 97; others = [] } ∷ record { first = 98; others = 99 ∷ [] } ∷ []

-- "a a a ...".
abbrev letters : ℕ → List ℕ
letters zero = []
letters (suc n) = 97 ∷ 32 ∷ letters n

length-letters : (n : ℕ) → length (letters n) ≡ n + n
length-letters zero = refl
length-letters (suc n) = omega (arith, length-letters n)

count-letters : (n : ℕ) → count_tokens false (letters n) ≡ n
unfolding count_tokens
count-letters zero = refl
count-letters (suc n) = ap suc (count-letters n)

abbrev page_end : Memory
page_end = record { size = 2 ^ 20; cell = λ _. 0 }

emu_args-overrun_example : emu_args true (2 ^ 20 - 4096) (letters 1022) page_end ≡ stop undefined
emu_args-overrun_example =
    emu_args-overrun (2 ^ 20 - 4096) (letters 1022) page_end (omega (arith, length-letters 1022))
      (omega (arith, count-letters 1022)) refl (omega arith)

emu_args-fits_example :
    (m' : Memory) × (emu_args true (2 ^ 20 - 4096) (joined arguments) page_end ≡ ok m')
    × (m'.size ≡ 2 ^ 20)
    × HasArgs (2 ^ 20 - 4096) arguments m'
emu_args-fits_example =
    emu_args-fits (2 ^ 20 - 4096) arguments page_end
      ((refl, refl, tt), ((refl, refl, (refl, refl, tt)), tt)) (omega arith) (omega arith) refl
      (omega arith)

-- Two structures of one word, whose names are at 32 and 34: "a" and "b".
abbrev named : Memory
named = record {
  size = 64;
  cell = update (update (update (update (λ _. 0) 0 32) 4 34) 32 97) 34 98;
}

find_entry-IsFound_example :
    Holds (IsFound named 0 4 (98 ∷ []) 0 2) (find_entry named 0 4 (98 ∷ []) 0 2)
find_entry-IsFound_example = find_entry-IsFound 2 named 0 4 (98 ∷ []) 0

finds_second : find_entry named 0 4 (98 ∷ []) 0 2 ≡ ok (some 4)
unfolding find_entry same_text mem_rw mem_rb
finds_second = refl
