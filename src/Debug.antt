-- ===== src/Debug.antt =====
-- The bridge to the GDB stub, src/debug.c: the operations that the stub calls, and the session. The
-- stub is a library, so what it returns is a parameter.
use switch_v.Common.{ℕ, ◌+◌, ◌^◌, ◌<◌, ◌≤◌, ◌≡◌, ◌∙◌, refl, ap, arith, true}
use switch_v.Common.{List, [], ◌∷◌, leb, update}
use switch_v.Common.Word.{u8, u32}
use switch_v.Common.Outcome.{Outcome, ok, stop, exits}
use switch_v.Memory.{Memory, length, read_bytes, write_bytes, mem_rb_ptr_s, mem_wb_ptr_s}
use switch_v.Cpu.State.{set_reg}
use switch_v.Cthread.{
  CthreadState, started, stopped, start_pending, stop_pending, suspended, suspend_pending,
  resume_pending, cthread_get_hsm_state,
}
use switch_v.ThreadsMgr.{Cthreads}

unfoldable pub read_reg : Cthreads → ℕ → ℕ → ℕ
read_reg ts core_id reg_id = (ts core_id).core.regs reg_id

unfoldable pub write_reg : ℕ → ℕ → ℕ → Cthreads → Cthreads
write_reg input core_id reg_id ts =
    update ts core_id (record (ts core_id) { core = set_reg (ts core_id).core reg_id (u32 input) })

unfoldable pub read_mem : Memory → ℕ → ℕ → Outcome (List ℕ)
read_mem m output_sz addr = mem_rb_ptr_s m (u32 addr) output_sz

unfoldable pub write_mem : List ℕ → ℕ → Memory → Outcome Memory
write_mem input addr m = mem_wb_ptr_s m (u32 addr) input

-- The texts that `core_name` chooses from.
pub data CoreName : Type 0 where
  hsm_started hsm_stopped hsm_suspended hsm_start_pending hsm_stop_pending hsm_suspend_pending :
      CoreName
  hsm_resume_pending no_name : CoreName

abbrev pub name_of : CthreadState → CoreName
name_of started = hsm_started
name_of stopped = hsm_stopped
name_of suspended = hsm_suspended
name_of start_pending = hsm_start_pending
name_of stop_pending = hsm_stop_pending
name_of suspend_pending = hsm_suspend_pending
name_of resume_pending = hsm_resume_pending
name_of _ = no_name

unfoldable pub core_name : Cthreads → ℕ → CoreName
core_name ts core_id = name_of (cthread_get_hsm_state (ts core_id))

-- `stub_ret`, as far as it is told apart.
pub data StubRet : Type 0 where
  stub_ok stub_closed stub_error : StubRet

abbrev pub after_cmds : StubRet → Outcome {0} Unit
after_cmds stub_ok = ok tt
after_cmds stub_closed = stop (exits 0)
after_cmds stub_error = stop (exits 1)

-- What `sad_stub_init` and `sad_stub_handle_cmds` return.
unfoldable pub run_debug : StubRet → StubRet → Outcome {0} Unit
run_debug stub_ok cmds = after_cmds cmds
run_debug _ cmds = stop (exits 1)

abbrev pub AreBytes : List ℕ → Type 0
AreBytes [] = Unit
AreBytes (b ∷ bs) = (b < 2 ^ 8) × AreBytes bs

write_bytes-below :
    (bs : List ℕ) (cell : ℕ → ℕ) (addr j : ℕ) → j < addr → write_bytes cell addr bs j ≡ cell j
unfolding write_bytes
write_bytes-below [] cell addr j h = refl
write_bytes-below (b ∷ bs) cell addr j h =
    write_bytes-below bs (update cell addr (u8 b)) (addr + 1) j (omega arith) ∙ ground arith

read_bytes-write_bytes :
    (bs : List ℕ) (cell : ℕ → ℕ) (addr : ℕ)
    → AreBytes bs
    → read_bytes (write_bytes cell addr bs) addr (length bs) ≡ bs
unfolding read_bytes write_bytes
read_bytes-write_bytes [] cell addr h = refl
read_bytes-write_bytes (b ∷ bs) cell addr (h, hs) =
    let first : write_bytes (update cell addr (u8 b)) (addr + 1) bs addr ≡ b =
      write_bytes-below bs (update cell addr (u8 b)) (addr + 1) addr (omega arith) ∙ ground arith in
    rw (first, read_bytes-write_bytes bs (update cell addr (u8 b)) (addr + 1) hs)

-- Bytes that the stub writes at an address below 2 ^ 32, in the memory, are what it then reads
-- there.
pub read_mem-write_mem :
    (bs : List ℕ) (addr : ℕ) (m : Memory)
    → AreBytes bs
    → addr < 2 ^ 32
    → addr + length bs ≤ m.size
    → (m' : Memory) × (write_mem bs addr m ≡ ok m') × (read_mem m' (length bs) addr ≡ ok bs)
unfolding read_mem write_mem mem_rb_ptr_s mem_wb_ptr_s
read_mem-write_mem bs addr m h small fits =
    let to : u32 addr ≡ addr = omega arith in
    let inside : leb (addr + length bs) m.size ≡ true = ground arith in
    (
      record m { cell = write_bytes m.cell addr bs },
      rw (to, inside),
      rw (to, inside) (ap ok (read_bytes-write_bytes bs m.cell addr h)),
    )
