-- ===== src/User/Args/Fits.antt =====
-- When the arguments of a guest program fit the page at the base of the stack, and what the page
-- holds then.
use switch_v.Common.{
  ℕ, suc, ◌+◌, ◌*◌, ◌^◌, ◌<◌, ◌≤◌, ◌≡◌, ◌⊎◌, inl, refl, ap, arith, ◌∙◌, sym, subst,
}
use switch_v.Common.{true, false, List, [], ◌∷◌, ◌++◌, leb}
use switch_v.Common.Word.{u32}
use switch_v.Common.Outcome.{ok}
use switch_v.Memory.{Memory, page_size, length, mem_rw}
use switch_v.Memory.Laws.{with_word, mem_ww-mapped, mem_rw-with_word}
use switch_v.User.Args.{cut, count_tokens, emu_args}
use switch_v.User.Args.Split.{Word, joined, ArePlain, as_texts, placed, placed-joined}
use switch_v.User.Args.Laid.{
  total, pointers, pointers-placed, AreLaid, AreLaid-same, Places, place_texts-Places, mem_rw-same,
  with_word-apart,
}

abbrev pub count : List Word → ℕ
count [] = 0
count (w ∷ ws) = suc (count ws)

pointers-as_texts : (ws : List Word) → pointers (as_texts ws) ≡ 4 * count ws
pointers-as_texts [] = refl
pointers-as_texts (w ∷ ws) = omega (arith, pointers-as_texts ws)

count_tokens-joined : (ws : List Word) → ArePlain ws → count_tokens false (joined ws) ≡ count ws
count_tokens-joined ws plain = omega (
  arith,
  pointers-as_texts ws,
  pointers-placed (count_tokens false (joined ws)) (cut false (joined ws) ++ 0 ∷ []),
  ap pointers (placed-joined ws plain),
)

-- The page from `base` on: the number of arguments, a pointer to each, a null pointer, and the
-- arguments themselves.
pub record HasArgs (base : ℕ) (ws : List Word) (m : Memory) : Type 0 where
  pub argc : mem_rw m base ≡ ok (count ws)
  pub argv : AreLaid m (base + 4) (base + 8 + 4 * count ws) (as_texts ws)
  pub null : mem_rw m (base + 4 + 4 * count ws) ≡ ok 0

module _ (base : ℕ) (ws : List Word) (m : Memory) (plain : ArePlain ws)
    (fits : 8 + 4 * count ws + total (as_texts ws) ≤ page_size) (page : base + page_size ≡ m.size)
    (small : m.size < 2 ^ 32) where
  abbrev counted : Memory
  counted = with_word m base (count ws)

  abbrev texts : List ℕ
  texts = cut false (joined ws) ++ 0 ∷ []

  found : placed (count ws) texts ≡ as_texts ws
  found = ap (λ n. placed n texts) (sym (count_tokens-joined ws plain)) ∙ placed-joined ws plain

  placing : Places (count ws) texts (base + 4) (base + 8 + 4 * count ws) counted
  placing =
      place_texts-Places (count ws) texts (base + 4) (base + 8 + 4 * count ws) counted (omega arith)
        (omega (arith, ap total found)) small

  -- The null pointer is written last.
  abbrev last : (p : Places (count ws) texts (base + 4) (base + 8 + 4 * count ws) counted) → Memory
  last p = with_word p.memory (base + 4 + 4 * count ws) 0

  last-HasArgs :
      (p : Places (count ws) texts (base + 4) (base + 8 + 4 * count ws) counted)
      → HasArgs base ws (last p)
  last-HasArgs p =
      let null : ℕ = base + 4 + 4 * count ws in
      let size : p.memory.size ≡ m.size = p.same_size in
      let beside : (a : ℕ) → (a < null) ⊎ (null + 4 ≤ a) → (last p).cell a ≡ p.memory.cell a =
        λ a e. with_word-apart p.memory null 0 a e in
      record {
        argc =
            mem_rw-same counted (last p) base size
              (λ a l u. beside a (inl (omega arith)) ∙ p.apart a (inl u) (omega arith))
            ∙ mem_rw-with_word m base (count ws) (omega arith) (omega arith);
        argv =
            AreLaid-same p.memory (last p) (base + 4) (base + 8 + 4 * count ws) (as_texts ws) refl
              (omega (arith, pointers-as_texts ws))
              (λ a l e. beside a (ground (arith, pointers-as_texts ws)))
              (subst (AreLaid p.memory (base + 4) (base + 8 + 4 * count ws)) found p.laid);
        null = mem_rw-with_word p.memory null 0 (omega arith) (omega (arith, size));
      }

  emu_args-last :
      (p : Places (count ws) texts (base + 4) (base + 8 + 4 * count ws) counted)
      → length (joined ws) < page_size
      → emu_args true base (joined ws) m ≡ ok (last p)
  unfolding emu_args
  emu_args-last p short =
      let long : leb page_size (length (joined ws)) ≡ false = ground arith in
      let ptr : u32 (base + 4) ≡ base + 4 = omega arith in
      let str : u32 (base + 4 + (count ws + 1) * 4) ≡ base + 8 + 4 * count ws = omega arith in
      let null : u32 (base + 4 + count ws * 4) ≡ base + 4 + 4 * count ws = omega arith in
      rw
        (
          long,
          count_tokens-joined ws plain,
          mem_ww-mapped m base (count ws) (omega arith),
          ptr,
          str,
          p.placing,
          null,
        )
        (mem_ww-mapped p.memory (base + 4 + 4 * count ws) 0 (omega (arith, p.same_size)))

-- Plain arguments, joined by single spaces, whose count, pointers and texts together take at most a
-- page at the end of a memory of less than 4 GiB are laid out there: `emu_args` returns, and from the
-- base of the stack on the page holds the number of arguments, a pointer to each of them in their
-- order, a null pointer, and where the pointers lead the bytes of each argument and a zero.
pub emu_args-fits :
    (base : ℕ) (ws : List Word) (m : Memory)
    → ArePlain ws
    → length (joined ws) < page_size
    → 8 + 4 * count ws + total (as_texts ws) ≤ page_size
    → base + page_size ≡ m.size
    → m.size < 2 ^ 32
    → (m' : Memory) × (emu_args true base (joined ws) m ≡ ok m')
      × (m'.size ≡ m.size)
      × HasArgs base ws m'
emu_args-fits base ws m plain short fits page small =
    let p = placing base ws m plain fits page small in
    (
      last base ws m plain fits page small p,
      emu_args-last base ws m plain fits page small p short,
      p.same_size,
      last-HasArgs base ws m plain fits page small p,
    )
