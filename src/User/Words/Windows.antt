-- ===== src/User/Words/Windows.antt =====
-- The system calls for the display and the heap of src/user/emu.c keep words words, and what the
-- emulator has of its own on the host.
use switch_v.Common.{ℕ, ◌+◌, ◌^◌, ◌<◌, arith, List, [], ◌∷◌}
use switch_v.Common.{Bool, true, false, ltb, leb, ◌==◌, if◌then◌else◌}
use switch_v.Common.Word.{u32, signed32, to_u32}
use switch_v.Common.Outcome.{Holds, Holds->>=, Holds-if}
use switch_v.Memory.{Memory, mem_rw}
use switch_v.Memory.Laws.{IsBytes}
use switch_v.Memory.Words.{mem_rw-Holds, mem_ww-Holds, mem_wb_ptr_s-Holds}
use switch_v.Cpu.Reg
use switch_v.Cpu.State.{Machine, reg, write}
use switch_v.Cpu.Invariant.{write-IsMachine}
use switch_v.Sdl.{
  Display, SdlLib, SdlEvent, Pulled, sdl_init, sdl_write_palette, sdl_write_fb, sdl_pull_events,
  pull_loop, next_idx, is_input,
}
use switch_v.User.Host.{Host, UserWorld, set_host, set_display}
use switch_v.User.Emu.{
  set_mem, emu_brk, emu_sdl_init, emu_sdl_write_palette, emu_sdl_write_fb, emu_sdl_pull_events,
}
use switch_v.User.Words.Descriptors.{KeepsFds}
use switch_v.User.Words.Copies.{to_u32-lt}
use switch_v.User.Words.Kept.{IsUserWorld, Kept, choose-Kept, after, refused}

pull_loop-Holds :
    (lib : SdlLib) (events mask tail : ℕ) (queue : List SdlEvent) (m : Memory) (idx i : ℕ)
    → IsBytes m
    → Holds (λ (p : Pulled). IsBytes p.mem) (pull_loop lib events mask tail queue m idx i)
unfolding pull_loop
pull_loop-Holds lib events mask tail [] m idx i b = b
pull_loop-Holds lib events mask tail (e ∷ rest) m idx i b =
    Holds-if (λ (p : Pulled). IsBytes p.mem) (next_idx mask idx == tail) _ _ b
      (Holds-if (λ (p : Pulled). IsBytes p.mem) (is_input lib e) _ _
        (Holds->>= IsBytes (λ (p : Pulled). IsBytes p.mem) _ _ (mem_wb_ptr_s-Holds m _ e.bytes b)
          (λ m' b'. pull_loop-Holds lib events mask tail rest m' (next_idx mask idx) (i + 1) b'))
        (pull_loop-Holds lib events mask tail rest m idx i b))

pull_events-Holds :
    (lib : SdlLib) (events head tail : ℕ) (m : Memory) (s : Display)
    → IsBytes m
    → Holds (λ (p : ℕ × Memory × Display). IsBytes p.1) (sdl_pull_events lib events head tail m s)
unfolding sdl_pull_events
pull_events-Holds lib events head tail m s b =
    Holds->>= (λ v. v < 2 ^ 32) (λ (p : ℕ × Memory × Display). IsBytes p.1) (mem_rw m head) _
      (mem_rw-Holds m head b)
      (λ idx h.
        Holds->>= (λ (p : Pulled). IsBytes p.mem) (λ (p : ℕ × Memory × Display). IsBytes p.1) _ _
          (pull_loop-Holds lib events _ tail s.queue m idx 0 b)
          (λ p b'.
            Holds->>= IsBytes (λ (q : ℕ × Memory × Display). IsBytes q.1) _ _
              (mem_ww-Holds p.mem head p.idx b') (λ m' b''. b'')))

module _ {H : Type 0} (Own : H → Type 0) where
  module _ (Opened : ℕ → H → Type 0) (host : Host H) (fds : KeepsFds Own Opened host)
      (m : Machine (UserWorld H)) (w : (Kept Own) m) where
    same-Kept : (d : Display) (h : H) → Own h → (Kept Own) (set_host (set_display m d) h)
    same-Kept d h k = record {
      core = w.core;
      bytes = w.bytes;
      world = record { shared = w.world.shared; own = k };
    }

    pub emu_sdl_init-Kept : Holds (Kept Own) (emu_sdl_init host m)
    unfolding emu_sdl_init
    emu_sdl_init-Kept =
        let a = host.sdl_start m.world.host in
        after Own
          (sdl_init a.0 (signed32 (reg m Reg.a1)) (signed32 (reg m Reg.a2)) (reg m Reg.a3)
            m.world.display)
          _ (λ p. same-Kept p.1 a.1 (fds.starts_sdl _ w.world.own))

    pub emu_sdl_write_palette-Kept : Holds (Kept Own) (emu_sdl_write_palette host m)
    unfolding emu_sdl_write_palette
    emu_sdl_write_palette-Kept =
        let a = host.allocates m.world.host in
        after Own (sdl_write_palette a.0 m.mem (reg m Reg.a0) (reg m Reg.a1) m.world.display) _
          (λ d. same-Kept d a.1 (fds.allocates _ w.world.own))

    a0-Kept :
        (v : ℕ) (d : Display) (mem : Memory)
        → v < 2 ^ 32
        → IsBytes mem
        → (Kept Own) (set_display (set_mem (write m Reg.a0 v) mem) d)
    a0-Kept v d mem h b =
        let w' = write-IsMachine (IsUserWorld Own) m Reg.a0 v w h in
        record {
          core = w'.core;
          bytes = b;
          world = record { shared = w.world.shared; own = w.world.own };
        }

    pub emu_sdl_write_fb-Kept : Holds (Kept Own) (emu_sdl_write_fb host m)
    unfolding emu_sdl_write_fb
    emu_sdl_write_fb-Kept =
        after Own (sdl_write_fb m.mem (reg m Reg.a0) m.world.display) _
          (λ p. a0-Kept (to_u32 p.0) p.1 m.mem (to_u32-lt p.0) w.bytes)

    pub emu_sdl_pull_events-Kept : Holds (Kept Own) (emu_sdl_pull_events host m)
    unfolding emu_sdl_pull_events
    emu_sdl_pull_events-Kept =
        Holds->>= (λ (p : ℕ × Memory × Display). IsBytes p.1) (Kept Own)
          (sdl_pull_events host.sdl_lib (reg m Reg.a0) (reg m Reg.a1) (reg m Reg.a2) m.mem
            m.world.display)
          _
          (pull_events-Holds host.sdl_lib (reg m Reg.a0) (reg m Reg.a1) (reg m Reg.a2) m.mem
            m.world.display w.bytes)
          (λ p b. a0-Kept (u32 p.0) p.2 p.1 (omega arith) b)

    moved-Kept :
        (v : ℕ) → v < 2 ^ 32 → (Kept Own) (record m { core = record m.core { elf_brk = v } })
    moved-Kept v h = record {
      core = record { word = w.core.word; kept = w.core.kept; brk = h };
      bytes = w.bytes;
      world = w.world;
    }

    pub emu_brk-Kept : (Kept Own) (emu_brk m)
    unfolding emu_brk
    emu_brk-Kept =
        choose-Kept Own (leb m.world.brk_limit (reg m Reg.a0)) _ _ (refused Own m w)
          (at (ltb 0 (reg m Reg.a0)))
      where
        to_brk : Bool → Machine (UserWorld H)
        to_brk b = if b then record m { core = record m.core { elf_brk = reg m Reg.a0 } } else m

        at : (b : Bool) → (Kept Own) (write (to_brk b) Reg.a0 (to_brk b).core.elf_brk)
        at true =
            write-IsMachine (IsUserWorld Own) _ Reg.a0 _
              (moved-Kept (reg m Reg.a0) (w.core.word Reg.a0)) (w.core.word Reg.a0)
        at false = write-IsMachine (IsUserWorld Own) m Reg.a0 _ w w.core.brk
