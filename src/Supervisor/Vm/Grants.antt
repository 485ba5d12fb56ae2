-- ===== src/Supervisor/Vm/Grants.antt =====
-- The entries that a walk of the page table of src/supervisor/vm.c comes to, and what it grants.
use switch_v.Common.{
  ℕ, zero, suc, ◌*◌, ◌%◌, ◌^◌, ◌<◌, ◌≡◌, refl, arith, bit_and, bit_or, ◌/◌, ◌+◌, ap, ◌∙◌, inl, inr,
  Bool-cases,
}
use switch_v.Common.{true, false, not, Option, none, some, ltb, if◌then◌else◌}
use switch_v.Common.Bits.{bit_and_low, bit_or_below}
use switch_v.Common.Word.{u32, shl32}
use switch_v.Common.Outcome.{ok, Holds, Holds-intro, Holds_elim, Holds->>=, Holds-if}
use switch_v.Memory.{mem_rw, page_size}
use switch_v.Cpu.Reg
use switch_v.Cpu.Decode.Fields.{masked}
use switch_v.Cpu.State.{Machine, reg}
use switch_v.Supervisor.Csr.{satp_mode, satp_ppn}
use switch_v.Supervisor.Trap.{dispatch_trap}
use switch_v.Supervisor.Vm.{
  OpType, op_code, Pte, pte_of, pte_addr, pte_invalid, pte_is_leaf, leaf_refused, leaf_target,
  Walked, walk_trap, walk, vm_tree_walk,
}
use switch_v.Supervisor.Vm.Laws.{permitted, aligned, leaf_refused_lem}

-- The page table that SATP names, and the address of an entry of a table: 64 MiB apart, where the
-- manual has 4 bytes.
abbrev pub root : {W : Type 0} → Machine W → ℕ
root m = satp_ppn (reg m Reg.satp) * page_size % 2 ^ 32

abbrev pub entry_of : ℕ → ℕ → ℕ
entry_of table index = table + index * 2 ^ 26

-- The entries that a walk for an address comes to, by level: that of the upper ten bits of the address
-- in the root, and that of the next ten in the table of a pointer, a valid entry which permits
-- nothing.
pub data Leads {W : Type 0} (m : Machine W) (addr : ℕ) : ℕ → ℕ → Type 0 where
  in_root : Leads m addr 1 (entry_of (root m) (addr / 2 ^ 22 % 2 ^ 10))
  in_table :
      (entry word : ℕ)
      → Leads m addr 1 entry
      → mem_rw m.mem entry ≡ ok word
      → (pte_of word).v ≡ true
      → (pte_of word).r ≡ false
      → (pte_of word).w ≡ false
      → (pte_of word).x ≡ false
      → Leads m addr 0 (entry_of ((pte_of word).ppn * page_size % 2 ^ 32) (addr / 2 ^ 12 % 2 ^ 10))

-- The bits of an address that a leaf of a level leaves as they are.
abbrev pub offset_bits : ℕ → ℕ
offset_bits zero = 12
offset_bits (suc _) = 22

-- What a translation that is granted comes from: the entry of the page table that the walk leads to,
-- a valid leaf that permits the access, and the address made of its page number and the page offset.
pub record Grants {W : Type 0} (op : OpType) (addr pa : ℕ) (m : Machine W) : Type 0 where
  pub level : ℕ
  pub entry_addr : ℕ
  pub word : ℕ
  pub leads : Leads m addr level entry_addr
  pub read : mem_rw m.mem entry_addr ≡ ok word
  pub valid : (pte_of word).v ≡ true
  pub permits : permitted m.core op level (pte_of word) ≡ true
  pub target : pa ≡ (pte_of word).ppn * page_size + addr % 2 ^ offset_bits level

-- A walk that ends in a trap or a grant of this address in this state.
abbrev Sound : {W : Type 0} → OpType → ℕ → Machine W → Option ℕ × Machine W → Type 0
Sound op addr m (none, m') = dispatch_trap (op_code op) addr m ≡ ok m'
Sound op addr m (some pa, m') = (m' ≡ m) × Grants op addr pa m

walk_trap-Sound :
    {W : Type 0} (op : OpType) (addr : ℕ) (m : Machine W)
    → Holds (Sound op addr m) (walk_trap op addr m)
walk_trap-Sound op addr m =
    Holds->>= (λ m'. dispatch_trap (op_code op) addr m ≡ ok m') (Sound op addr m)
      (dispatch_trap (op_code op) addr m) _ (Holds-intro _ _ (λ a h. h)) (λ m' h. h)

ppn-lt : (word : ℕ) → (pte_of word).ppn < 2 ^ 22
unfolding pte_of
ppn-lt word = omega arith

-- The address of a leaf whose page number is aligned to its level.
leaf_target_lem :
    (level addr : ℕ) (e : Pte)
    → e.ppn < 2 ^ 22
    → aligned level e ≡ true
    → leaf_target level addr e ≡ e.ppn * page_size + addr % 2 ^ offset_bits level
unfolding leaf_target
leaf_target_lem zero addr e fits ok_level =
    ap (bit_or (e.ppn * 2 ^ 12)) (bit_and_low 12 addr)
    ∙ bit_or_below 12 e.ppn (addr % 2 ^ 12) (omega arith)
leaf_target_lem (suc level) addr e fits ok_level =
    let megapage : bit_and e.ppn 0x3FFC00 * 2 ^ 12 ≡ e.ppn / 2 ^ 10 * 2 ^ 22 =
      ground (arith, masked 12 10 e.ppn) in
    let whole : e.ppn / 2 ^ 10 * 2 ^ 22 ≡ e.ppn * 2 ^ 12 = ground arith in
    let high : ltb 0 (suc level) ≡ true = ground arith in
    rw (high, megapage)
      (ap (bit_or (e.ppn / 2 ^ 10 * 2 ^ 22)) (bit_and_low 22 addr)
        ∙ bit_or_below 22 (e.ppn / 2 ^ 10) (addr % 2 ^ 22) (omega arith)
        ∙ omega (arith, whole))

leaf-Grants :
    {W : Type 0} (op : OpType) (addr level entry word : ℕ) (m : Machine W)
    → Leads m addr level entry
    → mem_rw m.mem entry ≡ ok word
    → pte_invalid (pte_of word) ≡ false
    → pte_is_leaf (pte_of word) ≡ true
    → leaf_refused m.core op level (pte_of word) ≡ false
    → Grants op addr (leaf_target level addr (pte_of word)) m
leaf-Grants op addr level entry word m to h v l p =
    let permits : permitted m.core op level (pte_of word) ≡ true =
      ground (arith, leaf_refused_lem m.core op level (pte_of word) v l) in
    record {
      level = level;
      entry_addr = entry;
      word = word;
      leads = to;
      read = h;
      valid = unfold pte_invalid in ground arith;
      permits = permits;
      target = leaf_target_lem level addr (pte_of word) (ppn-lt word) (ground arith);
    }

entry-Sound :
    {W : Type 0} (op : OpType) (addr level entry word : ℕ) (m : Machine W) (rest : Walked W)
    → Leads m addr level entry
    → mem_rw m.mem entry ≡ ok word
    → (pte_invalid (pte_of word) ≡ false
        → pte_is_leaf (pte_of word) ≡ false
        → Holds (Sound op addr m) rest)
    → Holds (Sound op addr m) (
        if pte_invalid (pte_of word)
        then walk_trap op addr m
        else if pte_is_leaf (pte_of word)
        then (if leaf_refused m.core op level (pte_of word)
            then walk_trap op addr m
            else ok (some (leaf_target level addr (pte_of word)), m))
        else rest)
entry-Sound op addr level entry word m rest to h deeper =
    let e = pte_of word in
    let trapped = walk_trap-Sound op addr m in
    elim (Bool-cases (pte_invalid (pte_of word))) [
      | inl bad ↦ rw bad trapped
      | inr good ↦ elim (Bool-cases (pte_is_leaf (pte_of word))) [
        | inr inner ↦ rw (good, inner) (deeper good inner)
        | inl leaf ↦ elim (Bool-cases (leaf_refused m.core op level (pte_of word))) [
          | inl refused ↦ rw (good, leaf, refused) trapped
          | inr granted ↦
              rw (good, leaf, granted)
                (refl, leaf-Grants op addr level entry word m to h good leaf granted)
        ]
      ]
    ]

-- A round of the loop whose rest is sound after a pointer.
round-Sound :
    {W : Type 0} (level : ℕ) (op : OpType) (addr tmp_addr pp_addr : ℕ) (m : Machine W)
    → Leads m addr level (pte_addr pp_addr tmp_addr)
    → ((word : ℕ)
        → mem_rw m.mem (pte_addr pp_addr tmp_addr) ≡ ok word
        → pte_invalid (pte_of word) ≡ false
        → pte_is_leaf (pte_of word) ≡ false
        → Holds
            (Sound op addr m)
            (walk level op addr (shl32 tmp_addr 10) (u32 ((pte_of word).ppn * page_size)) m))
    → Holds (Sound op addr m) (walk (suc level) op addr tmp_addr pp_addr m)
unfolding walk
round-Sound level op addr tmp_addr pp_addr m to deeper =
    Holds->>= (λ word. mem_rw m.mem (pte_addr pp_addr tmp_addr) ≡ ok word) (Sound op addr m)
      (mem_rw m.mem (pte_addr pp_addr tmp_addr)) _ (Holds-intro _ _ (λ word h. h))
      (λ word h.
        entry-Sound op addr level (pte_addr pp_addr tmp_addr) word m _ to h (deeper word h))

pte_addr_upper : (table addr : ℕ) → pte_addr table addr ≡ entry_of table (addr / 2 ^ 22 % 2 ^ 10)
unfolding pte_addr
pte_addr_upper table addr = omega (arith, masked 10 22 addr)

pte_addr_lower :
    (table addr : ℕ) → pte_addr table (shl32 addr 10) ≡ entry_of table (addr / 2 ^ 12 % 2 ^ 10)
pte_addr_lower table addr = pte_addr_upper table (shl32 addr 10) ∙ omega arith

walk-Sound :
    {W : Type 0} (op : OpType) (addr : ℕ) (m : Machine W)
    → Holds (Sound op addr m) (walk 2 op addr addr (root m) m)
unfolding pte_invalid pte_is_leaf walk
walk-Sound op addr m =
    let upper = pte_addr_upper (root m) addr in
    let at_root : Leads m addr 1 (pte_addr (root m) addr) = rw upper in_root in
    round-Sound 1 op addr addr (root m) m at_root (λ word h good inner.
      round-Sound 0 op addr (shl32 addr 10) (u32 ((pte_of word).ppn * page_size)) m
        (rw (pte_addr_lower (u32 ((pte_of word).ppn * page_size)) addr) (
          in_table (pte_addr (root m) addr) word at_root h (ground arith) (ground arith)
            (ground arith) (ground arith)))
        (λ word' h' good' inner'. walk_trap-Sound op addr m))

-- A translation is granted only by the entry that the walk leads to from SATP and the address (its
-- tables with the distance between entries that the code has, its fields in the order of the code),
-- if it is a valid leaf that permits the access by the privileged manual; it gives the page number of
-- the leaf with the page offset of the address, and changes nothing.
pub vm_tree_walk-Grants :
    {W : Type 0} (op : OpType) (addr pa : ℕ) (m m' : Machine W)
    → vm_tree_walk op addr m ≡ ok (some pa, m')
    → (m' ≡ m) × Grants op addr pa m
unfolding vm_tree_walk
vm_tree_walk-Grants op addr pa m m' h =
    Holds_elim (Sound op addr m) (vm_tree_walk op addr m) (some pa, m')
      (Holds-if (Sound op addr m) (not (satp_mode (reg m Reg.satp))) _ _ tt (
        Holds-if (Sound op addr m) (ltb (u32 (satp_ppn (reg m Reg.satp) * page_size)) m.mem.size) _
          _ (walk-Sound op addr m) tt))
      h
