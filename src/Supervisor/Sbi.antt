-- ===== src/Supervisor/Sbi.antt =====
-- The SBI calls that a supervisor program makes, src/supervisor/sbi.c.
use switch_v.Common.{
  ℕ, ◌-◌, ◌^◌, Bool, true, false, ◌||◌, Option, some, ltb, leb, ◌==◌, if◌then◌else◌, update,
}
use switch_v.Common.Outcome.{Outcome, ok, stop, undefined}
use switch_v.Cpu.Reg
use switch_v.Cpu.State.{Machine, reg, write}
use switch_v.Cpu.Run.{VCoreInit, vcore_init}
use switch_v.Cthread.{Cthread, is_started_or_pending, state_code}
use switch_v.Cthread.{
  cthread_get_hsm_state, cthread_signal_start, cthread_signal_stop, cthread_signal_suspend,
}
use switch_v.ThreadsMgr.{Ctx, Cthreads}
use switch_v.Supervisor.World.{World, give_back, take_out, on_threads}
pub mod Laws
pub mod Stop
pub mod Status

abbrev pub base_eid : ℕ
base_eid = 0x10

abbrev pub hsm_eid : ℕ
hsm_eid = 0x48534D

-- The error -k as a register value.
abbrev pub sbi_err : ℕ → ℕ
sbi_err k = 2 ^ 32 - k

abbrev pub sbi_success : ℕ
sbi_success = 0

abbrev pub err_not_supported : ℕ
err_not_supported = sbi_err 2

abbrev pub err_invalid_param : ℕ
err_invalid_param = sbi_err 3

abbrev pub err_invalid_address : ℕ
err_invalid_address = sbi_err 5

abbrev pub err_already_available : ℕ
err_already_available = sbi_err 6

abbrev pub succeed : Machine World → Machine World
succeed m = write m Reg.a0 sbi_success

-- The loop over `supported_ext`.
unfoldable pub is_supported : ℕ → Bool
is_supported eid = eid == base_eid || eid == hsm_eid

-- The base extension. Every function that it knows ends in `SBI_SUCCESS` in A0.
unfoldable pub base_ext : Machine World → Machine World
unfolding is_supported
base_ext m =
    let fid = reg m Reg.a6 in
    if fid == 0
    then succeed (write m Reg.a1 0x03000000)
    else if fid == 3
    then succeed (write m Reg.a0 (if is_supported (reg m Reg.a0) then 1 else 0))
    else if fid == 1 || fid == 2 || fid == 4 || fid == 5 || fid == 6
    then succeed (write m Reg.a1 0)
    else write m Reg.a0 err_not_supported

abbrev pub hart_init : ℕ → ℕ → ℕ → VCoreInit
hart_init start_addr hart_id opaque = record {
  pc = start_addr;
  sp = 0;
  id = hart_id;
  opaque = opaque;
  gp = 0;
  elf_brk = 0;
}

-- `vcore_init(&threads_mgr.cthreads[hart_id].core, &init)`.
abbrev pub reset_core : Cthread → VCoreInit → Cthread
reset_core t init = record t { core = vcore_init (some init) }

-- HART_START.
unfoldable pub hart_start : Machine World → Machine World
hart_start m =
    let hart_id = reg m Reg.a0 in
    let start_addr = reg m Reg.a1 in
    let ts = give_back m in
    let init = hart_init start_addr hart_id (reg m Reg.a2) in
    if leb m.world.ctx.cores hart_id
    then write m Reg.a0 err_invalid_param
    else if leb m.world.ctx.memory_size start_addr
    then write m Reg.a0 err_invalid_address
    else if is_started_or_pending (cthread_get_hsm_state (ts hart_id))
    then write m Reg.a0 err_already_available
    else succeed
        (on_threads m (λ t. update t hart_id (cthread_signal_start (reset_core (t hart_id) init))))

-- The array has an entry for each core.
abbrev pub at_core : Machine World → ℕ → Machine World → Outcome (Machine World)
at_core m i after = if ltb i m.world.ctx.cores then ok after else stop undefined

-- HART_STOP, of the core whose number the calling core has. The number is not tested.
unfoldable pub hart_stop : Machine World → Outcome (Machine World)
hart_stop m =
    let i = m.core.core_idx in
    at_core m i (succeed (on_threads m (λ t. update t i (cthread_signal_stop (t i)))))

-- HART_GET_STATUS.
unfoldable pub hart_get_status : Machine World → Machine World
unfolding state_code cthread_get_hsm_state
hart_get_status m =
    let hart_id = reg m Reg.a0 in
    if leb m.world.ctx.cores hart_id
    then write m Reg.a0 err_invalid_param
    else succeed (write m Reg.a1 (state_code (cthread_get_hsm_state (give_back m hart_id))))

-- HART_SUSPEND. A0 is read as the type of the suspend and as the number of the hart.
unfoldable pub hart_suspend : Machine World → Outcome (Machine World)
hart_suspend m =
    let suspend_type = reg m Reg.a0 in
    let hart_id = reg m Reg.a0 in
    let start_addr = reg m Reg.a1 in
    let init = hart_init start_addr hart_id (reg m Reg.a2) in
    if leb m.world.ctx.memory_size start_addr
    then ok (write m Reg.a0 err_invalid_address)
    else if suspend_type == 0
    then at_core m hart_id
        (succeed (on_threads m (λ t. update t hart_id (cthread_signal_suspend (t hart_id)))))
    else if suspend_type == 0x80000000
    then at_core m hart_id
        (succeed (on_threads m (λ t. update t hart_id (reset_core (t hart_id) init))))
    else ok (write m Reg.a0 err_invalid_param)

unfoldable pub hsm_ext : Machine World → Outcome (Machine World)
hsm_ext m =
    let fid = reg m Reg.a6 in
    if fid == 0
    then ok (hart_start m)
    else if fid == 1
    then hart_stop m
    else if fid == 2
    then ok (hart_get_status m)
    else if fid == 3
    then hart_suspend m
    else ok (write m Reg.a0 err_not_supported)

unfoldable pub emu_sbi_call : Machine World → Outcome (Machine World)
emu_sbi_call m =
    let eid = reg m Reg.a7 in
    if eid == base_eid
    then ok (base_ext m)
    else if eid == hsm_eid
    then hsm_ext m
    else ok (write m Reg.a0 err_not_supported)
