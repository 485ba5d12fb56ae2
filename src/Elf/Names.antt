-- ===== src/Elf/Names.antt =====
-- The search for a section or a symbol by its name, `ld_elf_getsect` and `ld_elf_getsym` of
-- src/loader.c.
use switch_v.Common.{ℕ, zero, suc, ◌+◌, ◌*◌, ◌<◌, ◌≡◌, sym, ◌∙◌, arith, inl, inr}
use switch_v.Common.{
  Bool, true, false, Bool-cases, Option, none, some, List, [], ◌∷◌, ◌==◌, leb, if◌then◌else◌,
}
use switch_v.Common.Outcome.{
  Outcome, ok, stop, undefined, Holds, Holds-intro, Holds->>=, Holds-mono,
}
use switch_v.Memory.{Memory, mem_rb, mem_rw}
use switch_v.Elf.{same_text, find_entry}

-- The bytes from an address on are a text and its end.
abbrev pub IsText : Memory → ℕ → List ℕ → Type 0
IsText d addr [] = (addr < d.size) × (d.cell addr ≡ 0)
IsText d addr (c ∷ cs) = (addr < d.size) × (d.cell addr ≡ c) × IsText d (addr + 1) cs

IsText-same_text :
    (d : Memory) (addr : ℕ) (text : List ℕ) → IsText d addr text → same_text d addr text ≡ ok true
unfolding same_text mem_rb
IsText-same_text d addr [] (inside, ends) =
    let mapped : leb (addr + 1) d.size ≡ true = ground arith in rw (mapped, ends)
IsText-same_text d addr (c ∷ cs) (inside, first, others) =
    let mapped : leb (addr + 1) d.size ≡ true = ground arith in
    let same : (d.cell addr == c) ≡ true = ground arith in
    rw (mapped, same) (IsText-same_text d (addr + 1) cs others)

same_text-IsText :
    (d : Memory) (addr : ℕ) (text : List ℕ) → same_text d addr text ≡ ok true → IsText d addr text
unfolding same_text mem_rb
same_text-IsText d addr [] h = ground arith
same_text-IsText d addr (c ∷ cs) h = elim (Bool-cases (leb (addr + 1) d.size)) [
  | inr outside ↦ let h' : stop undefined ≡ ok true = rw outside at h in absurd (cc)
  | inl mapped ↦
      let h' : (if d.cell addr == c then same_text d (addr + 1) cs else ok false) ≡ ok true =
        rw mapped at h in
      elim (Bool-cases (d.cell addr == c)) [
        | inr other ↦ let h'' : ok false ≡ ok true = rw other at h' in absurd (cc)
        | inl same ↦
            let h'' : same_text d (addr + 1) cs ≡ ok true = rw same at h' in
            (ground arith, ground arith, same_text-IsText d (addr + 1) cs h'')
      ]
]

-- The structure at an address has the name, or has another one.
pub record IsNamed (d : Memory) (names : ℕ) (name : List ℕ) (entry : ℕ) : Type 0 where
  pub offset : ℕ
  pub reads : mem_rw d entry ≡ ok offset
  pub text : IsText d (names + offset) name

pub record IsOther (d : Memory) (names : ℕ) (name : List ℕ) (entry : ℕ) : Type 0 where
  pub offset : ℕ
  pub reads : mem_rw d entry ≡ ok offset
  pub no_text : ¬ IsText d (names + offset) name

-- What a search of `n` structures of `size` bytes from `entry` on may find: the first of the name,
-- or nothing if there is none.
abbrev pub IsFound : Memory → ℕ → ℕ → List ℕ → ℕ → ℕ → Option ℕ → Type 0
IsFound d names size name entry n none = (j : ℕ) → j < n → IsOther d names name (entry + j * size)
IsFound d names size name entry n (some e) =
    (k : ℕ) × (k < n)
    × (e ≡ entry + k * size)
    × IsNamed d names name e
    × ((j : ℕ) → j < k → IsOther d names name (entry + j * size))

module _ (d : Memory) (names size : ℕ) (name : List ℕ) where
  further : (entry j : ℕ) → entry + size + j * size ≡ entry + suc j * size
  further entry j = omega arith

  -- The others up to a place, from the first one on.
  each-IsOther :
      (entry n : ℕ)
      → IsOther d names name entry
      → ((j : ℕ) → j < n → IsOther d names name (entry + size + j * size))
      → (j : ℕ) → j < suc n
      → IsOther d names name (entry + j * size)
  each-IsOther entry n first others zero h =
      let here : entry + 0 * size ≡ entry = omega arith in rw here first
  each-IsOther entry n first others (suc j) h = rw (sym (further entry j)) (others j (omega arith))

  -- A search that passes over the first one.
  IsFound-suc :
      (entry n : ℕ)
      → IsOther d names name entry
      → (r : Option ℕ) → IsFound d names size name (entry + size) n r
      → IsFound d names size name entry (suc n) r
  IsFound-suc entry n first none others = each-IsOther entry n first others
  IsFound-suc entry n first (some e) (k, few, place, named, others) =
      (suc k, omega arith, place ∙ further entry k, named, each-IsOther entry k first others)

read_of : {A : Type 0} (r : Outcome A) → Holds (λ a. r ≡ ok a) r
read_of r = Holds-intro (λ a. r ≡ ok a) r (λ a e. e)

-- A search that does not stop the process finds the first structure whose name, at the offset that
-- is its first word, is the text, up to its end; and it finds nothing only if no structure has it.
pub find_entry-IsFound :
    (n : ℕ) (d : Memory) (names size : ℕ) (name : List ℕ) (entry : ℕ)
    → Holds (IsFound d names size name entry n) (find_entry d names size name entry n)
unfolding find_entry
find_entry-IsFound zero d names size name entry = λ j h. absurd (omega arith)
find_entry-IsFound (suc n) d names size name entry =
    Holds->>= (λ offset. mem_rw d entry ≡ ok offset) Found (mem_rw d entry) _
      (read_of (mem_rw d entry))
      (λ offset e.
        Holds->>= (λ b. same_text d (names + offset) name ≡ ok b) Found
          (same_text d (names + offset) name) _ (read_of (same_text d (names + offset) name))
          (λ b t. at offset e (find_entry-IsFound n d names size name (entry + size)) b t))
  where
    Found : Option ℕ → Type 0
    Found r = IsFound d names size name entry (suc n) r

    at :
        (offset : ℕ)
        → mem_rw d entry ≡ ok offset
        → Holds
            (IsFound d names size name (entry + size) n)
            (find_entry d names size name (entry + size) n)
        → (b : Bool) → same_text d (names + offset) name ≡ ok b
        → Holds Found (if b then ok (some entry) else find_entry d names size name (entry + size) n)
    at offset e later true t = (
      0,
      omega arith,
      omega arith,
      record { offset = offset; reads = e; text = same_text-IsText d (names + offset) name t },
      λ j h. absurd (omega arith),
    )
    at offset e later false t =
        Holds-mono (IsFound d names size name (entry + size) n) Found
          (find_entry d names size name (entry + size) n)
          (IsFound-suc d names size name entry n (record {
            offset = offset;
            reads = e;
            no_text = λ is.
                let clash : ok false ≡ ok true =
                  sym t ∙ IsText-same_text d (names + offset) name is in
                cc;
          }))
          later
