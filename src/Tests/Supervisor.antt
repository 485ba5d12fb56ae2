-- ===== src/Tests/Supervisor.antt =====
-- Traps, system instructions, SBI calls and a page table of one entry.
use switch_v.Common.{ℕ, ◌*◌, ◌/◌, ◌≡◌, refl, arith, some, not, update}
use switch_v.Common.Outcome.{ok, stop, undefined}
use switch_v.Memory.{mem_rw}
use switch_v.Cpu.Reg
use switch_v.Cpu.State.{set_reg, Machine, reg, write}
use switch_v.Cpu.Instructions.{ill_ins}
use switch_v.Supervisor.World.{World, give_back}
use switch_v.Supervisor.Csr.{sstatus_mxr, sstatus_sum, satp_mode, satp_ppn}
use switch_v.Supervisor.Trap.{dispatch_trap, supervisor_software_interrupt}
use switch_v.Supervisor.Trap.Laws.{
  IsTrapped, vector, dispatch_trap-exception, dispatch_trap-interrupt,
}
use switch_v.Supervisor.Sbi.{hsm_eid, sbi_success, hart_init, emu_sbi_call}
use switch_v.Supervisor.Sbi.Laws.{woken, emu_sbi_call-hart_start}
use switch_v.Supervisor.Vm.{
  mem_read, mem_write, pte_of, pte_invalid, pte_is_leaf, leaf_refused, leaf_target, pte_addr, walk,
  vm_tree_walk,
}
use switch_v.Supervisor.Vm.Laws.{permitted, leaf_refused_lem, vm_tree_walk-outside}
use switch_v.Supervisor.Vm.Grants.{Grants, vm_tree_walk-Grants}
use switch_v.Tests.Data.{blank, loaded_with, machine, two_cores, stopped_thread}
use switch_v.Memory.Laws.{mem_rw-with_word}
use switch_v.Common.Word.{add32}
use switch_v.Common.{[], ◌∷◌, ◌≢◌, false}
use switch_v.Cpu.Run.{vcore_run, returned}
use switch_v.Cthread.{started, stopped, start_s, stop_s}
use switch_v.Cthread.Thread.{waiting, fsm_enter, fsm_relock}
use switch_v.Supervisor.Sbi.Stop.{ecall_word, thread_of, vcore_run-hart_stop}
use switch_v.Supervisor.Sbi.Status.{hart_get_status-hart_start}
use switch_v.Supervisor.Sys.{supervisor}

-- STVEC in the vectored mode at 0x80, and an external and a software interrupt enabled and pending.
abbrev interrupted : Machine World
interrupted =
    record (machine
      (update (update (update (update (λ _. 0) Reg.stvec 0x81) Reg.sie 0x202) Reg.sip 0x202)
        Reg.sstatus 2)
      0) { mem = loaded_with 0 }

dispatch_trap-exception_example :
    (m' : Machine World) × (dispatch_trap ill_ins 77 interrupted ≡ ok m')
    × IsTrapped ill_ins interrupted m'
    × (reg m' Reg.stval ≡ 77)
    × (reg m' Reg.pc ≡ 0x81 / 4 * 4)
dispatch_trap-exception_example =
    dispatch_trap-exception ill_ins 77 interrupted (omega arith) (omega arith)

dispatch_trap-interrupt_example :
    (m' : Machine World) × (dispatch_trap supervisor_software_interrupt 0 interrupted ≡ ok m')
    × IsTrapped supervisor_software_interrupt interrupted m'
    × (reg m' Reg.stval ≡ 0)
    × (reg m' Reg.pc ≡ vector 0x81 supervisor_software_interrupt)
dispatch_trap-interrupt_example =
    dispatch_trap-interrupt supervisor_software_interrupt 0 interrupted (omega arith) (omega arith)
      (omega arith)

-- Calls of HART_START: of hart 1 at address 16 with argument 5, and of hart 9.
abbrev calling : ℕ → ℕ → ℕ → Machine World
calling fid a0 a1 =
    machine
      (update
        (update (update (update (update (λ _. 0) Reg.a7 hsm_eid) Reg.a6 fid) Reg.a0 a0) Reg.a1 a1)
        Reg.a2 5)
      0

-- After the start of hart 1, and then with HART_GET_STATUS of a hart in the registers.
abbrev started_1 : Machine World → Machine World
started_1 m = record m {
  core = set_reg m.core Reg.a0 sbi_success;
  world = record two_cores {
    cthreads = update (give_back m) 1 (woken (two_cores.cthreads 1) (hart_init 16 1 5));
  };
}

abbrev asking : ℕ → Machine World
asking i = record (calling 2 i 0) { world = (started_1 (calling 0 1 16)).world }

emu_sbi_call-hart_start_example :
    emu_sbi_call (calling 0 1 16)
    ≡ ok (record (calling 0 1 16) {
      core = set_reg (calling 0 1 16).core Reg.a0 sbi_success;
      world = record two_cores {
        cthreads =
            update (give_back (calling 0 1 16)) 1 (woken (two_cores.cthreads 1) (hart_init 16 1 5));
      };
    })
emu_sbi_call-hart_start_example =
    emu_sbi_call-hart_start (calling 0 1 16) refl refl (omega arith) (omega arith) (omega arith)
      refl

-- The default suspend, called by hart 1.
abbrev suspending : Machine World
suspending = record (calling 3 0 16) { world = record two_cores { self = 1 } }

-- A root page at 0 whose first entry is a megapage that may be read, in supervisor mode.
abbrev leaf : ℕ
leaf = 0xC2000000

abbrev paged : Machine World
paged = machine (update (λ _. 0) Reg.satp 0x80000000) leaf

leaf_refused_lem_example :
    leaf_refused paged.core mem_write 1 (pte_of leaf)
    ≡ not (permitted paged.core mem_write 1 (pte_of leaf))
unfolding pte_of pte_invalid pte_is_leaf
leaf_refused_lem_example = leaf_refused_lem paged.core mem_write 1 (pte_of leaf) refl refl

walks : vm_tree_walk mem_read 0x1234 paged ≡ ok (some 0x1234, paged)
unfolding vm_tree_walk walk satp_mode satp_ppn pte_addr mem_rw pte_of pte_invalid pte_is_leaf
    leaf_refused sstatus_mxr sstatus_sum leaf_target
walks = refl

vm_tree_walk-Grants_example : (paged ≡ paged) × Grants mem_read 0x1234 0x1234 paged
vm_tree_walk-Grants_example = vm_tree_walk-Grants mem_read 0x1234 0x1234 paged paged walks

vm_tree_walk-outside_example : vm_tree_walk mem_read 0x400000 paged ≡ stop undefined
unfolding satp_mode satp_ppn
vm_tree_walk-outside_example =
    vm_tree_walk-outside mem_read 0x400000 paged (omega arith) (omega arith) (omega arith) refl
      (omega arith)

hart_get_status-hart_start_example :
    emu_sbi_call (asking 1) ≡ ok (write (write (asking 1) Reg.a1 2) Reg.a0 sbi_success)
hart_get_status-hart_start_example =
    hart_get_status-hart_start (calling 0 1 16) (started_1 (calling 0 1 16)) (asking 1) refl refl
      (omega arith) (omega arith) (omega arith) refl emu_sbi_call-hart_start_example refl refl refl
      refl

-- ECALL with HART_STOP, on a core whose thread is started.
abbrev stopper : Machine World
stopper = record (calling 1 0 0) {
  mem = loaded_with ecall_word;
  world = record two_cores {
    cthreads =
        update two_cores.cthreads 0
          (record stopped_thread { state = started; signal = start_s; old_signal = start_s });
  };
}

vcore_run-hart_stop_example :
    (m' : Machine World) × (vcore_run supervisor (false ∷ false ∷ []) stopper ≡ ok (returned m'))
    × (fsm_relock (thread_of m') ≡ ok (thread_of m'))
    × (fsm_enter (thread_of m') ≡ (waiting stop_s, record (thread_of m') { state = stopped }))
    × (reg m' Reg.a0 ≡ 0)
    × (reg m' Reg.pc ≡ add32 0 4)
    × ((i : ℕ) → i ≢ 0 → m'.world.cthreads i ≡ stopper.world.cthreads i)
vcore_run-hart_stop_example =
    vcore_run-hart_stop stopper false (false ∷ [])
      (mem_rw-with_word blank 0 ecall_word (omega arith) (omega arith)) refl refl refl refl
      (omega arith) refl
