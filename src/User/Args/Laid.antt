-- ===== src/User/Args/Laid.antt =====
-- The arguments of a guest program in the page at the base of the stack: what the loop of `emu_args`
-- of src/user/emu.c leaves in the memory.
use switch_v.Common.{ℕ, zero, suc, ◌+◌, ◌*◌, ◌^◌, ◌<◌, ◌≤◌, ◌≡◌, ◌⊎◌, inl, inr, refl, arith, ◌∙◌}
use switch_v.Common.{true, List, [], ◌∷◌, ◌++◌, leb, update}
use switch_v.Common.Word.{u8, u32}
use switch_v.Common.Outcome.{ok}
use switch_v.Memory.{Memory, length, write_bytes, mem_wb_ptr_s, mem_rw}
use switch_v.Memory.Laws.{with_word, mem_ww-mapped, mem_rw-with_word}
use switch_v.User.Args.{text_of, text_after, place_texts, length-snoc}
use switch_v.User.Args.Split.{placed}

-- The bytes of texts, each with its end.
abbrev pub total : List (List ℕ) → ℕ
total [] = 0
total (t ∷ ts) = length t + 1 + total ts

-- A text and its end, from `str` on.
abbrev pub IsText : (ℕ → ℕ) → ℕ → List ℕ → Type 0
IsText cell str [] = cell str ≡ 0
IsText cell str (c ∷ cs) = (cell str ≡ u8 c) × IsText cell (str + 1) cs

-- Pointers from `ptr` on to texts that follow each other from `str` on.
abbrev pub AreLaid : Memory → ℕ → ℕ → List (List ℕ) → Type 0
AreLaid m ptr str [] = Unit
AreLaid m ptr str (t ∷ ts) =
    (mem_rw m ptr ≡ ok str) × IsText m.cell str t × AreLaid m (ptr + 4) (str + (length t + 1)) ts

write_bytes-below :
    (cell : ℕ → ℕ) (addr : ℕ) (bs : List ℕ) (a : ℕ) → a < addr → write_bytes cell addr bs a ≡ cell a
unfolding write_bytes
write_bytes-below cell addr [] a h = refl
write_bytes-below cell addr (b ∷ bs) a h =
    write_bytes-below (update cell addr (u8 b)) (addr + 1) bs a (omega arith) ∙ ground arith

write_bytes-IsText :
    (cell : ℕ → ℕ) (str : ℕ) (t : List ℕ) → IsText (write_bytes cell str (t ++ 0 ∷ [])) str t
unfolding write_bytes
write_bytes-IsText cell str [] = ground arith
write_bytes-IsText cell str (c ∷ cs) = (
  write_bytes-below (update cell str (u8 c)) (str + 1) (cs ++ 0 ∷ []) str (omega arith)
      ∙ ground arith,
  write_bytes-IsText (update cell str (u8 c)) (str + 1) cs,
)

IsText-same :
    (cell cell' : ℕ → ℕ) (str : ℕ) (t : List ℕ)
    → ((a : ℕ) → str ≤ a → a < str + (length t + 1) → cell' a ≡ cell a)
    → IsText cell str t
    → IsText cell' str t
IsText-same cell cell' str [] same h = same str (omega arith) (omega arith) ∙ h
IsText-same cell cell' str (c ∷ cs) same (h, hs) = (
  same str (omega arith) (omega arith) ∙ h,
  IsText-same cell cell' (str + 1) cs (λ a l u. same a (omega arith) (omega arith)) hs,
)

pub mem_rw-same :
    (m m' : Memory) (addr : ℕ)
    → m'.size ≡ m.size
    → ((a : ℕ) → addr ≤ a → a < addr + 4 → m'.cell a ≡ m.cell a)
    → mem_rw m' addr ≡ mem_rw m addr
unfolding mem_rw
mem_rw-same m m' addr size same = rw (
  size,
  same addr (omega arith) (omega arith),
  same (addr + 1) (omega arith) (omega arith),
  same (addr + 2) (omega arith) (omega arith),
  same (addr + 3) (omega arith) (omega arith),
)

pub with_word-apart :
    (m : Memory) (addr v a : ℕ)
    → (a < addr) ⊎ (addr + 4 ≤ a)
    → (with_word m addr v).cell a ≡ m.cell a
with_word-apart m addr v a apart = ground arith

-- The bytes of the pointers to texts.
abbrev pub pointers : List (List ℕ) → ℕ
pointers [] = 0
pointers (t ∷ ts) = 4 + pointers ts

pub pointers-placed : (n : ℕ) (texts : List ℕ) → pointers (placed n texts) ≡ 4 * n
pointers-placed zero texts = refl
pointers-placed (suc n) texts = omega (arith, pointers-placed n (text_after texts))

-- What is laid out stays in a memory that has the same pointers and the same cells from the texts on.
pub AreLaid-same :
    (m m' : Memory) (ptr str : ℕ) (ts : List (List ℕ))
    → m'.size ≡ m.size
    → ptr + pointers ts ≤ str
    → ((a : ℕ) → ptr ≤ a → (a < ptr + pointers ts) ⊎ (str ≤ a) → m'.cell a ≡ m.cell a)
    → AreLaid m ptr str ts
    → AreLaid m' ptr str ts
AreLaid-same m m' ptr str [] size fits same h = tt
AreLaid-same m m' ptr str (t ∷ ts) size fits same (p, h, hs) = (
  mem_rw-same m m' ptr size (λ a l u. same a l (inl (omega arith))) ∙ p,
  IsText-same m.cell m'.cell str t (λ a l u. same a (omega arith) (inr l)) h,
  AreLaid-same m m' (ptr + 4) (str + (length t + 1)) ts size (omega arith)
      (λ a l e. same a (omega arith) (ground arith)) hs,
)

mem_wb_ptr_s_text :
    (m : Memory) (str : ℕ) (t : List ℕ)
    → str + (length t + 1) ≤ m.size
    → mem_wb_ptr_s m str (t ++ 0 ∷ [])
      ≡ ok (record m { cell = write_bytes m.cell str (t ++ 0 ∷ []) })
unfolding mem_wb_ptr_s
mem_wb_ptr_s_text m str t h =
    let inside : leb (str + length (t ++ 0 ∷ [])) m.size ≡ true =
      rw (length-snoc t 0) (ground arith) in
    rw inside

-- What the loop does from `ptr` and `str` on: it lays the texts out, and leaves the cells before the
-- texts alone that are not those of its pointers.
pub record Places (n : ℕ) (texts : List ℕ) (ptr str : ℕ) (m : Memory) : Type 0 where
  pub memory : Memory
  pub placing : place_texts n texts ptr str m ≡ ok memory
  pub same_size : memory.size ≡ m.size
  pub laid : AreLaid memory ptr str (placed n texts)
  pub apart : (a : ℕ) → (a < ptr) ⊎ (ptr + 4 * n ≤ a) → a < str → memory.cell a ≡ m.cell a

-- A round of the loop that fits.
placed_text : Memory → ℕ → ℕ → List ℕ → Memory
placed_text m ptr str t =
    with_word (record m { cell = write_bytes m.cell str (t ++ 0 ∷ []) }) ptr str

place_texts_round :
    (n : ℕ) (texts : List ℕ) (ptr str : ℕ) (m : Memory)
    → ptr + 4 ≤ str
    → str + (length (text_of texts) + 1) ≤ m.size
    → m.size < 2 ^ 32
    → place_texts (suc n) texts ptr str m
      ≡ place_texts n
          (text_after texts)
          (ptr + 4)
          (str + (length (text_of texts) + 1))
          (placed_text m ptr str (text_of texts))
unfolding place_texts placed_text
place_texts_round n texts ptr str m p s small =
    let t : List ℕ = text_of texts in
    let m1 : Memory = record m { cell = write_bytes m.cell str (t ++ 0 ∷ []) } in
    let ptr_after : u32 (ptr + 4) ≡ ptr + 4 = omega arith in
    let str_after : u32 (str + (length t + 1)) ≡ str + (length t + 1) = omega arith in
    rw (mem_wb_ptr_s_text m str t s, mem_ww-mapped m1 ptr str (omega arith), ptr_after, str_after)

placed_text-apart :
    (m : Memory) (ptr str : ℕ) (t : List ℕ) (a : ℕ)
    → (a < ptr) ⊎ (ptr + 4 ≤ a)
    → a < str
    → (placed_text m ptr str t).cell a ≡ m.cell a
unfolding placed_text
placed_text-apart m ptr str t a beside below =
    with_word-apart (record m { cell = write_bytes m.cell str (t ++ 0 ∷ []) }) ptr str a beside
    ∙ write_bytes-below m.cell str (t ++ 0 ∷ []) a below

placed_text-IsText :
    (m : Memory) (ptr str : ℕ) (t : List ℕ)
    → ptr + 4 ≤ str
    → IsText (placed_text m ptr str t).cell str t
unfolding placed_text
placed_text-IsText m ptr str t fits =
    let m1 : Memory = record m { cell = write_bytes m.cell str (t ++ 0 ∷ []) } in
    IsText-same m1.cell (with_word m1 ptr str).cell str t
      (λ a l u. with_word-apart m1 ptr str a (inr (omega arith))) (write_bytes-IsText m.cell str t)

placed_text-mem_rw :
    (m : Memory) (ptr str : ℕ) (t : List ℕ)
    → ptr + 4 ≤ str
    → str ≤ m.size
    → m.size < 2 ^ 32
    → mem_rw (placed_text m ptr str t) ptr ≡ ok str
unfolding placed_text
placed_text-mem_rw m ptr str t fits inside small =
    mem_rw-with_word (record m { cell = write_bytes m.cell str (t ++ 0 ∷ []) }) ptr str
      (omega arith) (omega arith)

placed_text_size : (m : Memory) (ptr str : ℕ) (t : List ℕ) → (placed_text m ptr str t).size ≡ m.size
unfolding placed_text
placed_text_size m ptr str t = refl

pub place_texts-Places :
    (n : ℕ) (texts : List ℕ) (ptr str : ℕ) (m : Memory)
    → ptr + 4 * n ≤ str
    → str + total (placed n texts) ≤ m.size
    → m.size < 2 ^ 32
    → Places n texts ptr str m
unfolding place_texts
place_texts-Places zero texts ptr str m p s small = record {
  memory = m;
  placing = refl;
  same_size = refl;
  laid = tt;
  apart = λ a e l. refl;
}
place_texts-Places (suc n) texts ptr str m p s small =
    let t : List ℕ = text_of texts in
    let m1 : Memory = placed_text m ptr str t in
    let size : m1.size ≡ m.size = placed_text_size m ptr str t in
    let rest =
      place_texts-Places n (text_after texts) (ptr + 4) (str + (length t + 1)) m1 (omega arith)
        (omega (arith, size)) (omega (arith, size)) in
    let kept_text =
      IsText-same m1.cell rest.memory.cell str t (λ a l u. rest.apart a (inr (omega arith)) u)
        (placed_text-IsText m ptr str t (omega arith)) in
    let kept_pointer =
      mem_rw-same m1 rest.memory ptr rest.same_size (λ a l u. rest.apart a (inl u) (omega arith)) in
    record {
      memory = rest.memory;
      placing =
          place_texts_round n texts ptr str m (omega arith) (omega arith) small ∙ rest.placing;
      same_size = rest.same_size ∙ size;
      laid = (
        kept_pointer ∙ placed_text-mem_rw m ptr str t (omega arith) (omega arith) small,
        kept_text,
        rest.laid,
      );
      apart = λ a e l.
          rest.apart a (ground arith) (omega arith)
          ∙ placed_text-apart m ptr str t a (ground arith) l;
    }
