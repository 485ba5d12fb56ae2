-- ===== src/User/Args/Kept.antt =====
-- `emu_args` of src/user/emu.c keeps the size of the memory, and its cells bytes.
use switch_v.Common.{ℕ, zero, suc, ◌+◌, ◌*◌, refl, Bool, false, not, List, [], ◌∷◌, ◌++◌}
use switch_v.Common.{leb}
use switch_v.Common.Word.{u32}
use switch_v.Common.Outcome.{◌>>=◌, Outcome, Holds, Holds-intro, Holds-if, Holds->>=, Holds-mono}
use switch_v.Memory.{Memory, page_size, length, mem_ww, mem_wb_ptr_s}
use switch_v.Memory.Laws.{IsBytes, Kept, mem_ww-Kept}
use switch_v.Memory.Words.{mem_wb_ptr_s-Kept, Kept-trans}
use switch_v.User.Args.{cut, count_tokens, text_of, text_after, place_texts, emu_args}

-- One change after another.
pub Kept->>= :
    (m : Memory) (r : Outcome Memory) (f : Memory → Outcome Memory)
    → Holds (Kept m) r
    → ((m' : Memory) → IsBytes m' → Holds (Kept m') (f m'))
    → Holds (Kept m) (r >>= f)
Kept->>= m r f h k =
    Holds->>= (Kept m) (Kept m) r f h (λ m' l.
      Holds-mono (Kept m') (Kept m) (f m') (λ m2 l2. Kept-trans m m' m2 l l2) (k m' l.bytes))

stores_word : (m : Memory) (addr v : ℕ) → IsBytes m → Holds (Kept m) (mem_ww m addr v)
stores_word m addr v b =
    Holds-intro (Kept m) (mem_ww m addr v) (λ m' e. mem_ww-Kept m m' addr v b e)

place_texts-Kept :
    (n : ℕ) (texts : List ℕ) (ptr str : ℕ) (m : Memory)
    → IsBytes m
    → Holds (Kept m) (place_texts n texts ptr str m)
unfolding place_texts
place_texts-Kept zero texts ptr str m b = record { same_size = refl; bytes = b }
place_texts-Kept (suc n) texts ptr str m b =
    Kept->>= m (mem_wb_ptr_s m str (text_of texts ++ 0 ∷ [])) _ (mem_wb_ptr_s-Kept m str _ b)
      (λ m1 b1.
        Kept->>= m1 (mem_ww m1 ptr str) _ (stores_word m1 ptr str b1)
          (λ m2 b2. place_texts-Kept n (text_after texts) _ _ m2 b2))

pub emu_args-Kept :
    (allocates : Bool) (stack_base : ℕ) (elf_args : List ℕ) (m : Memory)
    → IsBytes m
    → Holds (Kept m) (emu_args allocates stack_base elf_args m)
unfolding emu_args
emu_args-Kept allocates stack_base elf_args m b =
    let argc : ℕ = count_tokens false elf_args in
    Holds-if (Kept m) (leb page_size (length elf_args)) _ _ tt (
      Holds-if (Kept m) (not allocates) _ _ tt (
        Kept->>= m (mem_ww m stack_base argc) _ (stores_word m stack_base argc b) (λ m1 b1.
          Kept->>= m1
            (place_texts argc (cut false elf_args ++ 0 ∷ []) (u32 (stack_base + 4))
              (u32 (stack_base + 4 + (argc + 1) * 4)) m1)
            _ (place_texts-Kept argc _ _ _ m1 b1) (λ m2 b2. stores_word m2 _ 0 b2))))
