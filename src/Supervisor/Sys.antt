-- ===== src/Supervisor/Sys.antt =====
-- The system instructions of a SUPERVISOR build, src/supervisor/cpu_supervisor.c: environment calls
-- and the CSR instructions.
use switch_v.Common.{
  ℕ, ◌*◌, ◌^◌, bit_and, bit_or, Bool, true, false, not, ◌&&◌, ◌||◌, Option, none, some,
}
use switch_v.Common.{leb, ◌==◌, if◌then◌else◌}
use switch_v.Common.Word.{add32, not32}
use switch_v.Common.Outcome.{Outcome, ok, stop, undefined, ◌>>=◌}
use switch_v.Cpu.Op
use switch_v.Cpu.Reg
use switch_v.Cpu.Decode.{rd, rs1, func, i_imm}
use switch_v.Cpu.State.{VCore, set_reg, Machine, reg, write, Platform}
use switch_v.Cpu.Instructions.{ill_ins, advance}
use switch_v.ThreadsMgr.{threads_mgr_halt_cores}
use switch_v.Supervisor.Csr.{stvec_mode}
use switch_v.Supervisor.World.{World, on_threads}
use switch_v.Supervisor.Trap.{dispatch_trap, check_interrupts, is_supervisor}
use switch_v.Supervisor.Sbi.{emu_sbi_call}
pub mod Laws

abbrev pub brkpt : ℕ
brkpt = 3

abbrev pub ecall_u_mode : ℕ
ecall_u_mode = 8

-- The selectors as the code defines them: hexadecimal literals of binary digits.
abbrev pub csrrw : ℕ
csrrw = 0x001

abbrev pub csrrs : ℕ
csrrs = 0x010

abbrev pub csrrc : ℕ
csrrc = 0x011

abbrev pub csrrwi : ℕ
csrrwi = 0x101

abbrev pub csrrsi : ℕ
csrrsi = 0x110

abbrev pub csrrci : ℕ
csrrci = 0x111

abbrev pub sie_addr : ℕ
sie_addr = 0x104

abbrev pub stvec_addr : ℕ
stvec_addr = 0x105

abbrev pub sip_addr : ℕ
sip_addr = 0x144

-- The register of a supervisor CSR.
unfoldable pub find_csr : ℕ → Option ℕ
find_csr csr_addr =
    if csr_addr == 0x100
    then some Reg.sstatus
    else if csr_addr == sie_addr
    then some Reg.sie
    else if csr_addr == stvec_addr
    then some Reg.stvec
    else if csr_addr == 0x106
    then some Reg.scounteren
    else if csr_addr == 0x10B
    then some Reg.senvcfg
    else if csr_addr == 0x140
    then some Reg.sscratch
    else if csr_addr == 0x141
    then some Reg.sepc
    else if csr_addr == 0x142
    then some Reg.scause
    else if csr_addr == 0x143
    then some Reg.stval
    else if csr_addr == sip_addr
    then some Reg.sip
    else if csr_addr == 0x180
    then some Reg.satp
    else none

-- The tests of a write to a read-only register. The second reads the register where the immediate
-- is meant.
unfoldable pub read_only_refused : ℕ → ℕ → ℕ → ℕ → Bool
read_only_refused f csr_addr rs1_idx rs1_val =
    bit_and csr_addr 0xC00 == 0xC00
    && ((f == csrrs || f == csrrc) && not (rs1_idx == 0)
        || (f == csrrsi || f == csrrci) && not (rs1_val == 0))

-- The bits of SIP and SIE that an instruction may write.
unfoldable pub writable : ℕ → ℕ → ℕ
writable csr_addr v =
    if csr_addr == sip_addr
    then bit_and v (1 * 2 ^ 1)
    else if csr_addr == sie_addr
    then bit_and v (bit_or (bit_or (1 * 2 ^ 9) (1 * 2 ^ 5)) (1 * 2 ^ 1))
    else v

-- What an instruction writes to the CSR, of its old value, the register operand and the immediate
-- one. `none` is the `default` branch, which does nothing.
unfoldable pub csr_value : ℕ → ℕ → ℕ → ℕ → Option ℕ
csr_value f old val imm =
    if f == csrrw
    then some val
    else if f == csrrs
    then some (bit_or old val)
    else if f == csrrc
    then some (bit_and old (not32 val))
    else if f == csrrwi
    then some imm
    else if f == csrrsi
    then some (bit_or old imm)
    else if f == csrrci
    then some (bit_and old (not32 imm))
    else none

-- `*rd = *csr`, then `*csr = …`.
abbrev pub access_csr : VCore → ℕ → ℕ → Option ℕ → VCore
access_csr core dest csr none = core
access_csr core dest csr (some v) = set_reg (set_reg core dest (core.regs csr)) csr v

-- Reserved modes of STVEC become the direct one.
abbrev pub fix_stvec : VCore → ℕ → ℕ → VCore
fix_stvec core csr_addr csr =
    if csr_addr == stvec_addr && leb 2 (stvec_mode (core.regs csr))
    then set_reg core csr (bit_and (core.regs csr) (not32 0x3))
    else core

-- The rest of the instruction, once the pointer `csr` is set.
abbrev pub with_csr : ℕ → ℕ → Machine World → ℕ → Machine World
with_csr ins csr_addr m csr =
    let value =
      csr_value (func ins) (reg m csr) (writable csr_addr (reg m (rs1 ins)))
        (writable csr_addr (rs1 ins)) in
    record m { core = fix_stvec (access_csr m.core (rd ins) csr value) csr_addr csr }

-- With the pointer not set, a selector of the `switch` follows it, and another does nothing.
abbrev pub with_no_csr : ℕ → Machine World → Outcome (Machine World)
with_no_csr ins m = elim (csr_value (func ins) 0 0 0) [ none ↦ ok m | some v ↦ stop undefined ]

abbrev pub with_pointer : ℕ → Machine World → Option ℕ → Outcome (Machine World)
with_pointer ins m none = with_no_csr ins m
with_pointer ins m (some csr) = ok (with_csr ins (i_imm ins) m csr)

unfoldable pub csr_instruction : ℕ → Option ℕ → Machine World → Outcome (Machine World)
csr_instruction ins csr m =
    if read_only_refused (func ins) (i_imm ins) (rs1 ins) (reg m (rs1 ins))
    then dispatch_trap ill_ins ins m
    else with_pointer ins m csr

abbrev pub csr_or_trap : ℕ → Machine World → Option ℕ → Outcome (Machine World)
csr_or_trap ins m none = dispatch_trap ill_ins ins m
csr_or_trap ins m (some csr) = csr_instruction ins (some csr) m

-- A CSR of the user level leaves the pointer to the register unset.
unfoldable pub csr_type : ℕ → Machine World → Outcome (Machine World)
csr_type ins m =
    let privilege = bit_and (i_imm ins) 0x300 in
    if privilege == 0x100
    then (if is_supervisor m.core.mode
        then csr_or_trap ins m (find_csr (i_imm ins))
        else dispatch_trap ill_ins ins m)
    else if privilege == 0
    then csr_instruction ins none m
    else dispatch_trap ill_ins ins m

unfoldable pub env_type : ℕ → Machine World → Outcome (Machine World)
env_type ins m =
    let imm = i_imm ins in
    if imm == Op.ecall
    then ((if is_supervisor m.core.mode
          then emu_sbi_call m
          else dispatch_trap ecall_u_mode (reg m Reg.pc) m)
        >>= λ m'. ok (advance m' 4))
    else if imm == Op.ebreak
    then (if m.world.ctx.debug
        then ok (on_threads m (threads_mgr_halt_cores m.world.ctx))
        else dispatch_trap brkpt (reg m Reg.pc) m)
    else dispatch_trap ill_ins ins m

unfoldable pub vcore_sys_type : ℕ → Machine World → Outcome (Machine World)
vcore_sys_type ins m = if func ins == 0 then env_type ins m else csr_type ins m

-- The platform layer of a SUPERVISOR build.
unfoldable pub supervisor : Platform World
supervisor = record {
  dispatch_trap = dispatch_trap;
  vcore_sys_type = vcore_sys_type;
  check_interrupts = check_interrupts;
}
