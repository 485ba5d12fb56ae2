-- ===== src/Cpu/Invariant/Loop.antt =====
-- The loop of `vcore_run` keeps the well-formed states.
use switch_v.Common.{ℕ, ◌^◌, ◌<◌, arith, Bool, ◌||◌, List, [], ◌∷◌, ◌==◌}
use switch_v.Common.Outcome.{Holds, Holds->>=, Holds-if}
use switch_v.Memory.{mem_rw}
use switch_v.Memory.Words.{mem_rw-Holds}
use switch_v.Cpu.Op
use switch_v.Cpu.Reg
use switch_v.Cpu.Decode.{opcode_type, is_compressed}
use switch_v.Cpu.State.{Machine, reg, write, Platform}
use switch_v.Cpu.Instructions.{ill_ins}
use switch_v.Cpu.Run.{Ran, returned, running, execute, iterate, vcore_run}
use switch_v.Cpu.Invariant.Defs.{IsMachine, IsKept, write-IsMachine, KeepsWords}
use switch_v.Cpu.Invariant.Handlers.{
  vcore_r_type-IsKept, vcore_ir_type-IsKept, vcore_il_type-IsKept, vcore_s_type-IsKept,
  vcore_b_type-IsKept, vcore_a_type-IsKept,
}
use switch_v.Cpu.Invariant.Steps.{
  vcore_j_type-IsKept, vcore_ij_type-IsKept, vcore_lui_type-IsKept, vcore_auipc_type-IsKept,
}

-- The state in which a run stands.
abbrev pub machine_of : {W : Type 0} → Ran W → Machine W
machine_of (returned m) = m
machine_of (running m) = m

module _ {W : Type 0} (P : W → Type 0) (platform : Platform W) (laws : KeepsWords P platform) where
  execute-IsKept :
      (ins : ℕ) (m : Machine W) → IsMachine P m → ins < 2 ^ 32 → IsKept P (execute platform ins m)
  unfolding execute
  execute-IsKept ins m w h =
      Holds-if (IsMachine P) (opcode_type ins == Op.r_type) _ _
        (vcore_r_type-IsKept P platform laws ins m w h)
        (Holds-if (IsMachine P) (opcode_type ins == Op.ir_type) _ _
          (vcore_ir_type-IsKept P platform laws ins m w h)
          (Holds-if (IsMachine P) (opcode_type ins == Op.il_type) _ _
            (vcore_il_type-IsKept P platform laws ins m w h)
            (Holds-if (IsMachine P) (opcode_type ins == Op.s_type) _ _
              (vcore_s_type-IsKept P platform laws ins m w h)
              (Holds-if (IsMachine P) (opcode_type ins == Op.b_type) _ _
                (vcore_b_type-IsKept P platform laws ins m w h)
                (Holds-if (IsMachine P) (opcode_type ins == Op.j_type) _ _
                  (vcore_j_type-IsKept P ins m w)
                  (Holds-if (IsMachine P) (opcode_type ins == Op.ij_type) _ _
                    (vcore_ij_type-IsKept P ins m w)
                    (Holds-if (IsMachine P) (opcode_type ins == Op.lui) _ _
                      (vcore_lui_type-IsKept P ins m w h)
                      (Holds-if (IsMachine P) (opcode_type ins == Op.auipc) _ _
                        (vcore_auipc_type-IsKept P ins m w)
                        (Holds-if (IsMachine P) (opcode_type ins == Op.a_type) _ _
                          (vcore_a_type-IsKept P platform laws ins m w h)
                          (Holds-if (IsMachine P) (opcode_type ins == Op.sys_type) _ _
                            (laws.sys_type ins m w h)
                            (laws.traps ill_ins ins m w (omega arith) h)))))))))))

  -- One round of the loop, up to the test of the flag, ends in a well-formed state if it does not
  -- stop the process.
  pub iterate-IsKept : (m : Machine W) → IsMachine P m → IsKept P (iterate platform m)
  unfolding iterate
  iterate-IsKept m w =
      let cleared = write-IsMachine P m Reg.zero 0 w (omega arith) in
      Holds->>= (λ v. v < 2 ^ 32) (IsMachine P) (mem_rw m.mem (reg (write m Reg.zero 0) Reg.pc)) _
        (mem_rw-Holds m.mem _ w.bytes)
        (λ ins h.
          Holds-if (IsMachine P) (is_compressed ins) _ _ tt (execute-IsKept ins _ cleared h))

  -- So does a run of any number of rounds, whatever the other threads signal in between.
  pub vcore_run-IsMachine :
      (signals : List Bool) (m : Machine W)
      → IsMachine P m
      → Holds (λ r. IsMachine P (machine_of r)) (vcore_run platform signals m)
  unfolding vcore_run
  vcore_run-IsMachine [] m w = w
  vcore_run-IsMachine (s ∷ rest) m w =
      Holds->>= (IsMachine P) _ (iterate platform m) _ (iterate-IsKept m w) (λ m' w'.
        Holds-if (λ r. IsMachine P (machine_of r)) (s || m'.core.atomic_exit_loop) _ _
          (record {
            core = record { word = w'.core.word; kept = w'.core.kept; brk = w'.core.brk };
            bytes = w'.bytes;
            world = w'.world;
          })
          (Holds->>= (IsMachine P) _ (platform.check_interrupts m') _ (laws.interrupts m' w')
            (λ m'' w''. vcore_run-IsMachine rest m'' w'')))
