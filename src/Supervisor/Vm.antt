-- ===== src/Supervisor/Vm.antt =====
-- The walk of the page table, src/supervisor/vm.c and src/supervisor/vm.h. A `PTE` is read with the
-- bit-fields from the lowest bit up, as the compilers of the project's hosts lay them out: the page
-- number in bits 0 to 21, and `v` in bit 31. The index of an entry is in units of entries.
-- `ctx.memory_size` is the size of the mapping here.
use switch_v.Common.{
  ℕ, zero, suc, ◌+◌, ◌*◌, ◌/◌, ◌%◌, ◌^◌, bit_and, bit_or, Bool, true, false, not, ◌&&◌, ◌||◌,
}
use switch_v.Common.{Option, none, some, ltb, ◌==◌, if◌then◌else◌}
use switch_v.Common.Word.{u32, shl32}
use switch_v.Common.Outcome.{Outcome, ok, stop, aborts, ◌>>=◌}
use switch_v.Memory.{Memory, mem_rw, page_size}
use switch_v.Cpu.Reg
use switch_v.Cpu.State.{VCore, Machine, reg, ExecutionMode}
use switch_v.Supervisor.Csr.{satp_mode, satp_ppn, sstatus_mxr, sstatus_sum}
use switch_v.Supervisor.Trap.{dispatch_trap, is_supervisor}
pub mod Laws
pub mod Grants

-- `op_type`, and the exception code of each.
pub data OpType : Type 0 where
  mem_ins_fetch mem_read mem_write : OpType

abbrev pub op_code : OpType → ℕ
op_code mem_ins_fetch = 12
op_code mem_read = 13
op_code mem_write = 15

abbrev pub is_fetch : OpType → Bool
is_fetch mem_ins_fetch = true
is_fetch _ = false

abbrev pub is_read : OpType → Bool
is_read mem_read = true
is_read _ = false

abbrev pub is_write : OpType → Bool
is_write mem_write = true
is_write _ = false

-- The fields `rsw` and `g` are read by nothing.
pub record Pte : Type 0 where
  pub ppn : ℕ
  pub d : Bool
  pub a : Bool
  pub u : Bool
  pub x : Bool
  pub w : Bool
  pub r : Bool
  pub v : Bool

abbrev pub field : ℕ → ℕ → Bool
field k word = word / 2 ^ k % 2 == 1

unfoldable pub pte_of : ℕ → Pte
pte_of word = record {
  ppn = word % 2 ^ 22;
  d = field 24 word;
  a = field 25 word;
  u = field 27 word;
  x = field 28 word;
  w = field 29 word;
  r = field 30 word;
  v = field 31 word;
}

-- The entry that the walk selects: `GET_ADDR_LAST_10(addr) * sizeof(PTE)` entries of 4 bytes after
-- the page.
unfoldable pub pte_addr : ℕ → ℕ → ℕ
pte_addr pp_addr addr = pp_addr + bit_and addr 0xFFC00000 * 4 * 4

-- Not valid, or a reserved combination.
unfoldable pub pte_invalid : Pte → Bool
pte_invalid e = not e.v || not e.r && e.w

unfoldable pub pte_is_leaf : Pte → Bool
pte_is_leaf e = e.r || e.x

-- The checks of a leaf: its permissions, the privilege, the alignment of a megapage, and the
-- accessed and dirty bits.
unfoldable pub leaf_refused : VCore → OpType → ℕ → Pte → Bool
leaf_refused core op level e =
    let sstatus = core.regs Reg.sstatus in
    not (sstatus_mxr sstatus) && is_read op && not e.r
    || is_fetch op && not e.x
    || is_write op && not e.w
    || (not (sstatus_sum sstatus) || is_fetch op) && e.u && is_supervisor core.mode
    || not e.u && not (is_supervisor core.mode)
    || ltb 0 level && not (bit_and e.ppn 0x3FF == 0)
    || not e.a
    || not e.d && is_write op

unfoldable pub leaf_target : ℕ → ℕ → Pte → ℕ
leaf_target level addr e =
    if ltb 0 level
    then bit_or (bit_and e.ppn 0x3FFC00 * 2 ^ 12) (bit_and addr 0x3FFFFF)
    else bit_or (e.ppn * 2 ^ 12) (bit_and addr 0xFFF)

-- `none` is `TREE_WALK_TRAPPED`: the trap has been taken.
abbrev pub Walked : Type 0 → Type 0
Walked W = Outcome (Option ℕ × Machine W)

abbrev pub walk_trap : {W : Type 0} → OpType → ℕ → Machine W → Walked W
walk_trap op addr m = dispatch_trap (op_code op) addr m >>= λ m'. ok (none, m')

-- The rounds of the loop from `level` down: the first argument is the level plus one.
unfoldable pub walk : {W : Type 0} → ℕ → OpType → ℕ → ℕ → ℕ → Machine W → Walked W
walk zero op addr tmp_addr pp_addr m = walk_trap op addr m
walk (suc level) op addr tmp_addr pp_addr m =
    let deeper = λ (e : Pte). walk level op addr (shl32 tmp_addr 10) (u32 (e.ppn * page_size)) m in
    mem_rw m.mem (pte_addr pp_addr tmp_addr) >>= λ word.
    let e = pte_of word in
    if pte_invalid e
    then walk_trap op addr m
    else if pte_is_leaf e
    then (if leaf_refused m.core op level e
        then walk_trap op addr m
        else ok (some (leaf_target level addr e), m))
    else deeper e

unfoldable pub vm_tree_walk : {W : Type 0} → OpType → ℕ → Machine W → Walked W
vm_tree_walk op addr m =
    let satp = reg m Reg.satp in
    let pp_addr = u32 (satp_ppn satp * page_size) in
    if not (satp_mode satp)
    then stop aborts
    else if ltb pp_addr m.mem.size
    then walk 2 op addr addr pp_addr m
    else stop aborts
