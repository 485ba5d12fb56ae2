-- ===== src/User/Args.antt =====
-- The arguments of a guest program, `emu_args` of src/user/emu.c: the text is cut at its spaces and
-- laid out in the page at the base of the stack. `strtok` is by its definition in C: it passes over
-- spaces before a token and replaces the one that ends it, so of two spaces in a row the second one
-- stays at the front of what follows.
use switch_v.Common.{
  ℕ, zero, suc, ◌+◌, ◌-◌, ◌*◌, ◌^◌, ◌<◌, ◌≤◌, ◌≡◌, refl, arith, Bool, true, false, not,
}
use switch_v.Common.{List, [], ◌∷◌, ◌++◌, leb, ◌==◌, if◌then◌else◌, Bool-cases, inl, inr}
use switch_v.Common.Word.{u32}
use switch_v.Common.Outcome.{Outcome, ok, stop, exits, undefined, ◌>>=◌}
use switch_v.Memory.{Memory, page_size, length, mem_ww, mem_wb_ptr_s}
use switch_v.Memory.Laws.{with_word, mem_ww-mapped}
pub mod Split
pub mod Laid
pub mod Fits
pub mod Kept

abbrev pub space : ℕ
space = 32

-- The text after all calls of `strtok`; the flag tells whether it is inside of a token.
unfoldable pub cut : Bool → List ℕ → List ℕ
cut inside [] = []
cut false (c ∷ cs) = if c == space then c ∷ cut false cs else c ∷ cut true cs
cut true (c ∷ cs) = if c == space then 0 ∷ cut false cs else c ∷ cut true cs

-- How many tokens begin.
unfoldable pub count_tokens : Bool → List ℕ → ℕ
count_tokens inside [] = 0
count_tokens false (c ∷ cs) =
    if c == space then count_tokens false cs else suc (count_tokens true cs)
count_tokens true (c ∷ cs) = if c == space then count_tokens false cs else count_tokens true cs

-- `strlen`, and what follows the end of the text.
unfoldable pub text_of : List ℕ → List ℕ
text_of [] = []
text_of (c ∷ cs) = if c == 0 then [] else c ∷ text_of cs

unfoldable pub text_after : List ℕ → List ℕ
text_after [] = []
text_after (c ∷ cs) = if c == 0 then cs else text_after cs

-- The loop, of the arguments that are left: `ptr` is where the next pointer goes and `str` where the
-- next text does.
unfoldable pub place_texts : ℕ → List ℕ → ℕ → ℕ → Memory → Outcome Memory
place_texts zero texts ptr str m = ok m
place_texts (suc n) texts ptr str m = mem_wb_ptr_s m str (text_of texts ++ 0 ∷ []) >>= λ m1.
    mem_ww m1 ptr str >>= λ m2.
    place_texts n (text_after texts) (u32 (ptr + 4)) (u32 (str + (length (text_of texts) + 1))) m2

-- `allocates`: `malloc` gives memory.
unfoldable pub emu_args : Bool → ℕ → List ℕ → Memory → Outcome Memory
emu_args allocates stack_base elf_args m =
    let argc = count_tokens false elf_args in
    let ptr = u32 (stack_base + 4) in
    if leb page_size (length elf_args)
    then stop (exits 1)
    else if not allocates
    then stop (exits 1)
    else (mem_ww m stack_base argc >>= λ m1.
        place_texts argc (cut false elf_args ++ 0 ∷ []) ptr (u32 (stack_base + 4 + (argc + 1) * 4))
          m1
        >>= λ m2. mem_ww m2 (u32 (ptr + argc * 4)) 0)

count_tokens-le : (inside : Bool) (cs : List ℕ) → count_tokens inside cs ≤ length cs
unfolding count_tokens
count_tokens-le inside [] = omega arith
count_tokens-le false (c ∷ cs) = ground (arith, count_tokens-le false cs, count_tokens-le true cs)
count_tokens-le true (c ∷ cs) = ground (arith, count_tokens-le false cs, count_tokens-le true cs)

pub length-snoc : (xs : List ℕ) (b : ℕ) → length (xs ++ b ∷ []) ≡ length xs + 1
length-snoc [] b = refl
length-snoc (x ∷ xs) b = omega (arith, length-snoc xs b)

place_texts-outside :
    (n : ℕ) (texts : List ℕ) (ptr str : ℕ) (m : Memory)
    → 0 < n
    → m.size ≤ str
    → place_texts n texts ptr str m ≡ stop undefined
unfolding place_texts mem_wb_ptr_s
place_texts-outside zero texts ptr str m some h = absurd (omega arith)
place_texts-outside (suc n) texts ptr str m some h =
    let outside : leb (str + length (text_of texts ++ 0 ∷ [])) m.size ≡ false =
      rw (length-snoc (text_of texts) 0) (ground arith) in
    rw outside

-- The number of arguments is not tested: a text of less than a page that begins 1022 of them or
-- more has pointers that fill the page at the end of the memory, and, in a memory at least five pages
-- below 4 GiB, the first text is written behind the mapping, which C leaves undefined.
pub emu_args-overrun :
    (stack_base : ℕ) (elf_args : List ℕ) (m : Memory)
    → length elf_args < page_size
    → 1022 ≤ count_tokens false elf_args
    → stack_base + page_size ≡ m.size
    → m.size + 5 * page_size ≤ 2 ^ 32
    → emu_args true stack_base elf_args m ≡ stop undefined
unfolding emu_args place_texts mem_wb_ptr_s
emu_args-overrun stack_base elf_args m short many page size =
    let argc : ℕ = count_tokens false elf_args in
    let fits : leb page_size (length elf_args) ≡ false = ground arith in
    let few : argc ≤ length elf_args = count_tokens-le false elf_args in
    let first : u32 (stack_base + 4 + (argc + 1) * 4) ≡ stack_base + 4 + (argc + 1) * 4 =
      omega arith in
    rw (
      fits,
      mem_ww-mapped m stack_base argc (omega arith),
      first,
      place_texts-outside argc (cut false elf_args ++ 0 ∷ []) (u32 (stack_base + 4))
          (stack_base + 4 + (argc + 1) * 4) (with_word m stack_base argc) (omega arith)
          (omega arith),
    )
