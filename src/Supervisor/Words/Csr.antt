-- ===== src/Supervisor/Words/Csr.antt =====
-- The CSR instructions keep words words.
use switch_v.Common.{ℕ, ◌^◌, ◌<◌, ◌≡◌, refl, arith, bit_and, bit_or}
use switch_v.Common.{◌&&◌, Option, none, some, leb, ◌==◌}
use switch_v.Common.Bits.{bit_and-le, bit_or-lt}
use switch_v.Common.Word.{not32}
use switch_v.Common.Outcome.{ok, stop, Holds, Holds-if}
use switch_v.Cpu.Decode.{rd, rs1, func, i_imm}
use switch_v.Cpu.State.{VCore, Machine, reg}
use switch_v.Cpu.Instructions.{ill_ins}
use switch_v.Cpu.Invariant.{IsCore, set_reg-IsCore}
use switch_v.Supervisor.Csr.{stvec_mode}
use switch_v.Supervisor.World.{World}
use switch_v.Supervisor.Trap.{dispatch_trap, is_supervisor}
use switch_v.Supervisor.Sys.{
  csr_value, writable, access_csr, fix_stvec, with_csr, with_pointer, csr_instruction, csr_or_trap,
  csr_type, find_csr, stvec_addr, read_only_refused,
}
use switch_v.Common.{Bool-cases, inl, inr}
use switch_v.Common.Outcome.{undefined}
use switch_v.Cpu.Decode.Fields.{rs1_lem}
use switch_v.Supervisor.Words.Defs.{Kept}
use switch_v.Supervisor.Words.Trap.{dispatch_trap-Kept}

not32-lt : (x : ℕ) → not32 x < 2 ^ 32
not32-lt x = omega arith

csr_value-lt :
    (f old val imm v : ℕ)
    → old < 2 ^ 32
    → val < 2 ^ 32
    → imm < 2 ^ 32
    → csr_value f old val imm ≡ some v
    → v < 2 ^ 32
unfolding csr_value
csr_value-lt f old val imm v ho hv hi e = ground (
  arith,
  bit_or-lt 32 old val,
  bit_or-lt 32 old imm,
  bit_and-le 32 old (not32 val),
  bit_and-le 32 old (not32 imm),
)

writable-lt : (a v : ℕ) → v < 2 ^ 32 → writable a v < 2 ^ 32
unfolding writable
writable-lt a v h = ground (arith, bit_and-le 32 v 2, bit_and-le 32 v (bit_or (bit_or 512 32) 2))

access_csr-IsCore :
    (core : VCore) (dest csr : ℕ) (o : Option ℕ)
    → IsCore core
    → ((v : ℕ) → o ≡ some v → v < 2 ^ 32)
    → IsCore (access_csr core dest csr o)
access_csr-IsCore core dest csr none c h = c
access_csr-IsCore core dest csr (some v) c h =
    set_reg-IsCore _ csr v (set_reg-IsCore core dest _ c (c.word csr)) (h v refl)

fix_stvec-IsCore : (core : VCore) (a csr : ℕ) → IsCore core → IsCore (fix_stvec core a csr)
fix_stvec-IsCore core a csr c =
    elim (Bool-cases (a == stvec_addr && leb 2 (stvec_mode (core.regs csr)))) [
      | inl fix ↦ rw fix (
          set_reg-IsCore core csr _ c
            (omega (arith, c.word csr, bit_and-le 32 (core.regs csr) (not32 0x3))))
      | inr keep ↦ rw keep c
    ]

with_csr-Kept : (ins a : ℕ) (m : Machine World) (csr : ℕ) → Kept m → Kept (with_csr ins a m csr)
with_csr-Kept ins a m csr w = record {
  core = fix_stvec-IsCore _ a csr (
      access_csr-IsCore m.core (rd ins) csr _ w.core (λ v e.
        csr_value-lt (func ins) (reg m csr) _ _ v (w.core.word csr)
          (writable-lt a _ (w.core.word (rs1 ins)))
          (writable-lt a (rs1 ins) (omega (arith, rs1_lem ins))) e));
  bytes = w.bytes;
  world = w.world;
}

with_pointer-Kept :
    (ins : ℕ) (m : Machine World) (o : Option ℕ) → Kept m → Holds Kept (with_pointer ins m o)
with_pointer-Kept ins m none w = go (csr_value (func ins) 0 0 0)
  where
    go : (o : Option ℕ) → Holds Kept (elim o [ none ↦ ok m | some v ↦ stop undefined ])
    go none = w
    go (some v) = tt
with_pointer-Kept ins m (some csr) w = with_csr-Kept ins (i_imm ins) m csr w

csr_instruction-Kept :
    (ins : ℕ) (o : Option ℕ) (m : Machine World)
    → Kept m
    → ins < 2 ^ 32
    → Holds Kept (csr_instruction ins o m)
unfolding csr_instruction
csr_instruction-Kept ins o m w h =
    Holds-if Kept (read_only_refused (func ins) (i_imm ins) (rs1 ins) (reg m (rs1 ins))) _ _
      (dispatch_trap-Kept ill_ins ins m w (omega arith) h) (with_pointer-Kept ins m o w)

csr_or_trap-Kept :
    (ins : ℕ) (m : Machine World) (o : Option ℕ)
    → Kept m
    → ins < 2 ^ 32
    → Holds Kept (csr_or_trap ins m o)
csr_or_trap-Kept ins m none w h = dispatch_trap-Kept ill_ins ins m w (omega arith) h
csr_or_trap-Kept ins m (some csr) w h = csr_instruction-Kept ins (some csr) m w h

pub csr_type-Kept :
    (ins : ℕ) (m : Machine World) → Kept m → ins < 2 ^ 32 → Holds Kept (csr_type ins m)
unfolding csr_type
csr_type-Kept ins m w h =
    Holds-if Kept (bit_and (i_imm ins) 0x300 == 0x100) _ _
      (Holds-if Kept (is_supervisor m.core.mode) _ _
        (csr_or_trap-Kept ins m (find_csr (i_imm ins)) w h) trapped)
      (Holds-if Kept (bit_and (i_imm ins) 0x300 == 0) _ _ (csr_instruction-Kept ins none m w h)
        trapped)
  where
    trapped : Holds Kept (dispatch_trap ill_ins ins m)
    trapped = dispatch_trap-Kept ill_ins ins m w (omega arith) h
