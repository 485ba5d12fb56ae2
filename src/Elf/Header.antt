-- ===== src/Elf/Header.antt =====
-- The header of a program that the loader accepts.
use switch_v.Common.{ℕ, ◌+◌, ◌*◌, ◌^◌, ◌≡◌, refl, arith}
use switch_v.Common.{leb, ◌==◌, if◌then◌else◌, update, Bool-cases, inl, inr}
use switch_v.Common.Outcome.{Outcome, ok, stop, exits, undefined, ◌>>=◌}
use switch_v.Memory.{Memory, in_map, mem_rb, mem_rh, mem_rw}
use switch_v.Elf.{ld_elf_validate, validate}

-- What the checks of the header say of a file that they accept: a 32-bit RISC-V executable.
pub record IsRiscv (d : Memory) : Type 0 where
  pub magic0 : d.cell 0 ≡ 127
  pub magic1 : d.cell 1 ≡ 69
  pub magic2 : d.cell 2 ≡ 76
  pub magic3 : d.cell 3 ≡ 70
  pub class32 : d.cell 4 ≡ 1
  pub executable : d.cell 16 + d.cell 17 * 2 ^ 8 ≡ 2
  pub riscv : d.cell 18 + d.cell 19 * 2 ^ 8 ≡ 243

-- A check of a field that the rest of the checks follows.
checked :
    (d : Memory) (addr n c k : ℕ) (next : ℕ → Outcome ℕ) (v : ℕ)
    → (validate (in_map d addr n c) (λ x. x == k) >>= next) ≡ ok v
    → (c ≡ k) × (next c ≡ ok v)
checked d addr n c k next v h = elim (Bool-cases (leb (addr + n) d.size)) [
  | inl mapped ↦
      let h' : ((if c == k then ok c else stop (exits 1)) >>= next) ≡ ok v = rw mapped at h in
      elim (Bool-cases (c == k)) [
        | inl same ↦ let h'' : next c ≡ ok v = rw same at h' in (ground arith, h'')
        | inr other ↦ let h'' : stop (exits 1) ≡ ok v = rw other at h' in absurd (cc)
      ]
  | inr outside ↦ let h' : stop undefined ≡ ok v = rw outside at h in absurd (cc)
]

-- A file whose header the loader accepts has the magic number of ELF, the 32-bit class, and is an
-- executable for RISC-V.
pub ld_elf_validate-IsRiscv : (d : Memory) (v : ℕ) → ld_elf_validate d ≡ ok v → IsRiscv d
unfolding ld_elf_validate mem_rb mem_rh mem_rw
ld_elf_validate-IsRiscv d v h =
    let s0 = checked d 0 1 (d.cell 0) 127 _ v h in
    let s1 = checked d 1 1 (d.cell 1) 69 _ v s0.1 in
    let s2 = checked d 2 1 (d.cell 2) 76 _ v s1.1 in
    let s3 = checked d 3 1 (d.cell 3) 70 _ v s2.1 in
    let s4 = checked d 4 1 (d.cell 4) 1 _ v s3.1 in
    let s5 = checked d 4 1 (d.cell 4) 1 _ v s4.1 in
    let s6 = checked d 6 1 (d.cell 6) 1 _ v s5.1 in
    let s7 = checked d 7 1 (d.cell 7) 0 _ v s6.1 in
    let s8 = checked d 8 1 (d.cell 8) 0 _ v s7.1 in
    let s9 = checked d 16 2 (d.cell 16 + d.cell 17 * 2 ^ 8) 2 _ v s8.1 in
    let s10 = checked d 18 2 (d.cell 18 + d.cell 19 * 2 ^ 8) 243 _ v s9.1 in
    record {
      magic0 = s0.0;
      magic1 = s1.0;
      magic2 = s2.0;
      magic3 = s3.0;
      class32 = s4.0;
      executable = s9.0;
      riscv = s10.0;
    }

-- The data encoding, the byte 5 of the file, has no effect on the checks of the header.
pub ld_elf_validate-encoding :
    (d : Memory) (encoding : ℕ)
    → ld_elf_validate (record d { cell = update d.cell 5 encoding }) ≡ ld_elf_validate d
unfolding ld_elf_validate mem_rb mem_rh mem_rw
ld_elf_validate-encoding d encoding = refl
