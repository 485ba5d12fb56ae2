-- ===== src/User/Laws.antt =====
-- The calls of a guest for the time and for memory, in src/user/emu.c.
use switch_v.Common.{ℕ, ◌+◌, ◌/◌, ◌^◌, ◌<◌, ◌≤◌, ◌≡◌, ◌⊎◌, refl, arith, true}
use switch_v.Common.{◌∙◌, List, [], ◌∷◌, leb, update}
use switch_v.Common.Int.{pos}
use switch_v.Common.Word.{u8, to_u32, to_u64}
use switch_v.Common.Outcome.{ok}
use switch_v.Memory.{Memory, length, write_bytes, mem_wb_ptr_s}
use switch_v.Memory.Laws.{with_word, mem_ww-mapped}
use switch_v.Cpu.Reg
use switch_v.Cpu.State.{Machine, reg}
use switch_v.User.Host.{Host, Time, UserWorld}
use switch_v.User.Stat.{store_time, normal_time, emu_copy_timeval}
use switch_v.User.Emu.{failed, result, set_mem, emu_brk, emu_gettimeofday}

-- The memory after a structure of a time is stored.
abbrev pub timed : Memory → ℕ → Time → Memory
timed m addr t =
    with_word (with_word (with_word m addr (to_u32 t.sec)) (addr + 4) (to_u64 t.sec / 2 ^ 32))
      (addr + 8) (to_u32 t.part)

store_time_lem :
    (m : Memory) (addr : ℕ) (t : Time)
    → addr + 12 ≤ m.size
    → store_time m addr t ≡ ok (timed m addr t)
unfolding store_time
store_time_lem m addr t fits =
    let m1 : Memory = with_word m addr (to_u32 t.sec) in
    let m2 : Memory = with_word m1 (addr + 4) (to_u64 t.sec / 2 ^ 32) in
    rw
      (
        mem_ww-mapped m addr (to_u32 t.sec) (omega arith),
        mem_ww-mapped m1 (addr + 4) (to_u64 t.sec / 2 ^ 32) (omega arith),
      )
      (mem_ww-mapped m2 (addr + 8) (to_u32 t.part) (omega arith))

-- BRK leaves the break below the limit if it is there, gives the break or an error that moves
-- nothing, and changes no other register.
pub emu_brk_lem :
    {H : Type 0} (m : Machine (UserWorld H))
    → m.core.elf_brk < m.world.brk_limit
    → ((emu_brk m).core.elf_brk < m.world.brk_limit)
      × ((reg (emu_brk m) Reg.a0 ≡ (emu_brk m).core.elf_brk)
          ⊎ ((reg (emu_brk m) Reg.a0 ≡ failed) × ((emu_brk m).core.elf_brk ≡ m.core.elf_brk)))
      × ((i : ℕ) → (i ≡ Reg.a0) ⊎ (reg (emu_brk m) i ≡ reg m i))
unfolding emu_brk
emu_brk_lem m below = (ground arith, ground arith, λ i. ground arith)

-- A cell apart from a range.
abbrev pub Apart : ℕ → ℕ → ℕ → Type 0
Apart addr n j = (j < addr) ⊎ (addr + n ≤ j)

timed_leaves : (m : Memory) (t : Time) (j : ℕ) → 12 ≤ j → (timed m 0 t).cell j ≡ m.cell j
timed_leaves m t j high = ground arith

written_leaves :
    (bs : List ℕ) (cell : ℕ → ℕ) (addr j : ℕ)
    → Apart addr (length bs) j
    → write_bytes cell addr bs j ≡ cell j
unfolding write_bytes
written_leaves [] cell addr j apart = refl
written_leaves (b ∷ bs) cell addr j apart =
    written_leaves bs (update cell addr (u8 b)) (addr + 1) j (ground arith) ∙ ground arith

-- GETTIMEOFDAY that succeeds on the host changes no cell of the guest's but those of the time zone,
-- at A1, and the first twelve: so a structure at A0, above these, does not get the time.
pub emu_gettimeofday-leaves :
    {H : Type 0} (host : Host H) (m : Machine (UserWorld H)) (tv : Time) (zone : List ℕ) (h : H)
    (j : ℕ)
    → host.gettimeofday m.world.host ≡ (pos 0, tv, zone, h)
    → 12 ≤ j
    → Apart (reg m Reg.a1) (length zone) j
    → reg m Reg.a1 + length zone ≤ m.mem.size
    → 12 ≤ m.mem.size
    → (m' : Machine (UserWorld H)) × (emu_gettimeofday host m ≡ ok m')
      × (reg m' Reg.a0 ≡ 0)
      × (m'.mem.cell j ≡ m.mem.cell j)
unfolding emu_gettimeofday emu_copy_timeval mem_wb_ptr_s
emu_gettimeofday-leaves host m tv zone h j answer high apart fits large =
    let t : Time = normal_time 1000000 tv in
    let m1 : Memory = record m.mem { cell = write_bytes m.mem.cell (reg m Reg.a1) zone } in
    let mapped : leb (reg m Reg.a1 + length zone) m.mem.size ≡ true = ground arith in
    (
      result (set_mem m (timed m1 0 t)) (pos 0) h,
      rw (answer, mapped, store_time_lem m1 0 t (omega arith)),
      refl,
      timed_leaves m1 t j high ∙ written_leaves zone m.mem.cell (reg m Reg.a1) j apart,
    )
