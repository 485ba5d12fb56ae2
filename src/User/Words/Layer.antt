-- ===== src/User/Words/Layer.antt =====
-- The platform layer of a USER build meets the interface of the instructions.
use switch_v.Common.{ℕ, List}
use switch_v.Common.{Bool, ◌||◌, ◌==◌}
use switch_v.Common.Outcome.{ok, Holds, Holds->>=, Holds-if}
use switch_v.Cpu.Reg
use switch_v.Cpu.Op
use switch_v.Cpu.Decode.{i_imm}
use switch_v.Cpu.State.{Machine, reg}
use switch_v.Cpu.Run.{vcore_run}
use switch_v.Cpu.Instructions.{ill_ins}
use switch_v.Cpu.Invariant.{
  IsMachine, advance-IsMachine, KeepsWords, vcore_run-IsMachine, machine_of,
}
use switch_v.ThreadsMgr.{threads_mgr_halt_cores}
use switch_v.Supervisor.Words.{on_threads-Kept, halt_cores-AllCores}
use switch_v.Supervisor.Sys.{brkpt, ecall_u_mode}
use switch_v.Sdl.{sdl_shutdown}
use switch_v.User.Host.{Host, UserWorld, on_all}
use switch_v.User.Emu.{emu_system_call, emu_brk}
use switch_v.User.Sys.{user_trap, user_sys_type, user}
use switch_v.User.Words.Descriptors.{KeepsFds}
use switch_v.User.Words.Kept.{IsUserWorld, Kept}
use switch_v.User.Words.Calls.{
  emu_close-Kept, emu_lseek-Kept, emu_read-Kept, emu_write-Kept, emu_fstat-Kept,
  emu_gettimeofday-Kept, emu_clock_gettime-Kept, emu_open-Kept,
}
use switch_v.User.Words.Windows.{
  emu_brk-Kept, emu_sdl_init-Kept, emu_sdl_write_palette-Kept, emu_sdl_write_fb-Kept,
  emu_sdl_pull_events-Kept,
}

module _ {H : Type 0} (Own : H → Type 0) (Opened : ℕ → H → Type 0) (host : Host H)
    (fds : KeepsFds Own Opened host) where
  emu_system_call-Kept :
      (m : Machine (UserWorld H)) → (Kept Own) m → Holds (Kept Own) (emu_system_call host m)
  unfolding emu_system_call sdl_shutdown
  emu_system_call-Kept m w =
      let n = reg m Reg.a7 in
      Holds-if (Kept Own) (n == 57) _ _ (emu_close-Kept Own Opened host fds m w) (
        Holds-if (Kept Own) (n == 62) _ _ (emu_lseek-Kept Own Opened host fds m w) (
          Holds-if (Kept Own) (n == 63) _ _ (emu_read-Kept Own Opened host fds m w) (
            Holds-if (Kept Own) (n == 64) _ _ (emu_write-Kept Own Opened host fds m w) (
              Holds-if (Kept Own) (n == 80) _ _ (emu_fstat-Kept Own Opened host fds m w) (
                Holds-if (Kept Own) (n == 169) _ _ (emu_gettimeofday-Kept Own Opened host fds m w) (
                  Holds-if (Kept Own) (n == 93) _ _ tt (
                    Holds-if (Kept Own) (n == 403) _ _
                      (emu_clock_gettime-Kept Own Opened host fds m w)
                      (Holds-if (Kept Own) (n == 1024) _ _ (emu_open-Kept Own Opened host fds m w) (
                        Holds-if (Kept Own) (n == 214) (ok (emu_brk m)) _
                          (emu_brk-Kept Own Opened host fds m w)
                          (Holds-if (Kept Own) (n == 2100) _ _
                            (emu_sdl_init-Kept Own Opened host fds m w)
                            (Holds-if (Kept Own) (n == 2101) _ _
                              (emu_sdl_write_palette-Kept Own Opened host fds m w)
                              (Holds-if (Kept Own) (n == 2102) _ _
                                (emu_sdl_write_fb-Kept Own Opened host fds m w)
                                (Holds-if (Kept Own) (n == 2104) _ _ tt (
                                  Holds-if (Kept Own) (n == 2103) _ _
                                    (emu_sdl_pull_events-Kept Own Opened host fds m w)
                                    tt))))))))))))))

  halted-Kept :
      (m : Machine (UserWorld H))
      → (Kept Own) m
      → (Kept Own) (on_all m (threads_mgr_halt_cores m.world.shared.ctx))
  halted-Kept m w =
      let s =
        on_threads-Kept (record { core = m.core; mem = m.mem; world = m.world.shared })
          (record { core = w.core; bytes = w.bytes; world = w.world.shared })
          (threads_mgr_halt_cores m.world.shared.ctx) (halt_cores-AllCores m.world.shared.ctx) in
      record {
        core = s.core;
        bytes = w.bytes;
        world = record { shared = s.world; own = w.world.own };
      }

  user_trap-Kept :
      (code v : ℕ) (m : Machine (UserWorld H))
      → (Kept Own) m
      → Holds (Kept Own) (user_trap host code v m)
  unfolding user_trap
  user_trap-Kept code v m w = Holds-if (Kept Own) (code == ill_ins) _ _ tt (
      Holds-if (Kept Own) (code == brkpt)
        (ok (on_all m (threads_mgr_halt_cores m.world.shared.ctx))) _ (halted-Kept m w)
        (Holds-if (Kept Own) (code == ecall_u_mode) _ _ (emu_system_call-Kept m w)
          (Holds-if (Kept Own) (code == 12 || code == 13 || code == 15) _ _ w tt)))

  user_sys_type-Kept :
      (ins : ℕ) (m : Machine (UserWorld H))
      → (Kept Own) m
      → Holds (Kept Own) (user_sys_type host ins m)
  unfolding user_sys_type
  user_sys_type-Kept ins m w =
      Holds-if (Kept Own) (i_imm ins == Op.ecall) _ _
        (Holds->>= (Kept Own) (Kept Own) (user_trap host ecall_u_mode 0 m) _
          (user_trap-Kept ecall_u_mode 0 m w)
          (λ m' w'. advance-IsMachine (IsUserWorld Own) m' 4 w'))
        (Holds-if (Kept Own) (i_imm ins == Op.ebreak) _ _ (user_trap-Kept brkpt (reg m Reg.pc) m w)
          (user_trap-Kept ill_ins ins m w))

  pub user-KeepsWords : KeepsWords (IsUserWorld Own) (user host)
  unfolding user
  user-KeepsWords = record {
    traps = λ code v m w hc hv. user_trap-Kept code v m w;
    sys_type = λ ins m w h. user_sys_type-Kept ins m w;
    interrupts = λ m w. w;
  }

  -- In a USER build, on a host whose calls keep what the emulator has of its own (`Own`) when they
  -- are on descriptors of a guest, or open a file and close it again, a run of any number of rounds,
  -- whatever the guest asks for, leads from well-formed registers and memory to well-formed ones and
  -- keeps `Own`, if it does not stop the process.
  pub user_run-IsMachine :
      (signals : List Bool) (m : Machine (UserWorld H))
      → IsMachine (IsUserWorld Own) m
      → Holds (λ r. IsMachine (IsUserWorld Own) (machine_of r)) (vcore_run (user host) signals m)
  user_run-IsMachine signals m w =
      vcore_run-IsMachine (IsUserWorld Own) (user host) user-KeepsWords signals m w
