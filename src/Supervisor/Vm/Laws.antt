-- ===== src/Supervisor/Vm/Laws.antt =====
-- The checks of a leaf in src/supervisor/vm.c, and the entries that a walk looks for outside of the
-- memory.
use switch_v.Common.{ℕ, ◌*◌, ◌%◌, ◌^◌, ◌≤◌, ◌<◌, ◌≡◌, arith, bit_and}
use switch_v.Common.{Bool, true, false, not, ◌&&◌, ◌||◌, ◌==◌}
use switch_v.Common.Bits.{bit_and_low}
use switch_v.Common.Word.{u32}
use switch_v.Common.Outcome.{stop, undefined}
use switch_v.Memory.{mem_rw, page_size}
use switch_v.Cpu.Reg
use switch_v.Cpu.Decode.Fields.{masked}
use switch_v.Cpu.State.{VCore, Machine, reg, ExecutionMode, supervisor_mode, user_mode}
use switch_v.Supervisor.Csr.{satp_mode, satp_ppn, sstatus_mxr, sstatus_sum}
use switch_v.Supervisor.Vm.{
  OpType, mem_ins_fetch, mem_read, mem_write, is_fetch, Pte, pte_addr, pte_invalid, pte_is_leaf,
  leaf_refused, walk, vm_tree_walk,
}

-- What the privileged manual asks of the leaf that translates an access, by the kind of access and
-- by the privilege.
abbrev pub permits_op : VCore → Pte → OpType → Bool
permits_op core e mem_ins_fetch = e.x
permits_op core e mem_read = e.r || sstatus_mxr (core.regs Reg.sstatus) && e.x
permits_op core e mem_write = e.w && e.d

abbrev pub permits_mode : VCore → Pte → OpType → ExecutionMode → Bool
permits_mode core e op user_mode = e.u
permits_mode core e op supervisor_mode =
    not e.u || sstatus_sum (core.regs Reg.sstatus) && not (is_fetch op)

-- A leaf above the last level is a megapage, and its page number is aligned to it.
abbrev pub aligned : ℕ → Pte → Bool
aligned level e = level == 0 || e.ppn % 2 ^ 10 == 0

abbrev pub permitted : VCore → OpType → ℕ → Pte → Bool
permitted core op level e =
    e.a && permits_op core e op && permits_mode core e op core.mode && aligned level e

ppn0_lem : (e : Pte) → bit_and e.ppn 0x3FF ≡ e.ppn % 2 ^ 10
ppn0_lem e = bit_and_low 10 e.ppn

-- The checks of a leaf refuse exactly what the manual does not permit.
pub leaf_refused_lem :
    (core : VCore) (op : OpType) (level : ℕ) (e : Pte)
    → pte_invalid e ≡ false
    → pte_is_leaf e ≡ true
    → leaf_refused core op level e ≡ not (permitted core op level e)
unfolding pte_invalid pte_is_leaf leaf_refused
leaf_refused_lem core mem_ins_fetch level e v l = ground (arith, ppn0_lem e)
leaf_refused_lem core mem_read level e v l = ground (arith, ppn0_lem e)
leaf_refused_lem core mem_write level e v l = ground (arith, ppn0_lem e)

-- With a root inside the memory, an access at 4 MiB or above looks for its entry at least 64 MiB
-- after the root: with that much memory or less it reads behind the mapping, which C leaves undefined.
pub vm_tree_walk-outside :
    {W : Type 0} (op : OpType) (addr : ℕ) (m : Machine W)
    → 2 ^ 22 ≤ addr
    → addr < 2 ^ 32
    → m.mem.size ≤ 2 ^ 26
    → satp_mode (reg m Reg.satp) ≡ true
    → u32 (satp_ppn (reg m Reg.satp) * page_size) < m.mem.size
    → vm_tree_walk op addr m ≡ stop undefined
unfolding vm_tree_walk walk pte_addr mem_rw
vm_tree_walk-outside op addr m low high small on root = ground (arith, masked 10 22 addr)
