-- ===== src/Cpu/Invariant/Handlers.antt =====
-- Each instruction of src/cpu.c that may trap keeps the well-formed states.
use switch_v.Common.{ℕ, ◌^◌, ◌<◌, ◌≡◌, refl, arith}
use switch_v.Common.{Bool, Option, none, some, ◌==◌}
use switch_v.Common.Word.{add32}
use switch_v.Common.Outcome.{Holds, Holds-intro, Holds->>=, Holds-if}
use switch_v.Memory.{Fetched, mem_rb, mem_rh}
use switch_v.Memory.Laws.{mem_rh-lt, mem_rb-lt}
use switch_v.Memory.Words.{IsFetched, mem_rw-Holds, mem_ww-Holds, mem_wh-Holds, mem_wb-Holds}
use switch_v.Cpu.Op
use switch_v.Cpu.Decode.{rd, rs1, rs2, func, r_func, a_func, i_imm, b_imm}
use switch_v.Cpu.Decode.Fields.{rs2_lem}
use switch_v.Cpu.Alu.Bounds.{r_value-lt, ir_value-lt}
use switch_v.Cpu.State.{Machine, reg, Platform}
use switch_v.Cpu.Instructions.{
  ill_ins, finish, trap_and_advance, branch, extend, amo_or_trap, vcore_r_type, vcore_ir_type,
  vcore_il_type, vcore_s_type, vcore_b_type, vcore_a_type,
}
use switch_v.Cpu.Invariant.Defs.{IsMachine, IsKept, advance-IsMachine, KeepsWords}
use switch_v.Cpu.Invariant.Steps.{
  finished, load-IsKept, store-IsKept, fetch-IsKept, store_conditional-IsKept, load_reserved-IsKept,
  i_imm-lt, extend-lt, amo-IsFetched,
}

module _ {W : Type 0} (P : W → Type 0) (platform : Platform W) (laws : KeepsWords P platform) where
  trap_and_advance-IsKept :
      (m : Machine W) (v : ℕ)
      → IsMachine P m
      → v < 2 ^ 32
      → IsKept P (trap_and_advance platform m v)
  trap_and_advance-IsKept m v w h =
      Holds->>= (IsMachine P) (IsMachine P) (platform.dispatch_trap ill_ins v m) _
        (laws.traps ill_ins v m w (omega arith) h) (λ m' w'. advance-IsMachine P m' 4 w')

  finish-IsKept :
      (m : Machine W) (dest faulting : ℕ) (o : Option ℕ)
      → IsMachine P m
      → faulting < 2 ^ 32
      → ((v : ℕ) → o ≡ some v → v < 2 ^ 32)
      → IsKept P (finish platform m dest faulting o)
  finish-IsKept m dest faulting none w h k = trap_and_advance-IsKept m faulting w h
  finish-IsKept m dest faulting (some v) w h k = finished P m dest v w (k v refl)

  pub vcore_r_type-IsKept :
      (ins : ℕ) (m : Machine W)
      → IsMachine P m
      → ins < 2 ^ 32
      → IsKept P (vcore_r_type platform ins m)
  unfolding vcore_r_type
  vcore_r_type-IsKept ins m w h =
      finish-IsKept m (rd ins) ins _ w h
        (λ v e. r_value-lt (r_func ins) _ _ v (w.core.word (rs1 ins)) (w.core.word (rs2 ins)) e)

  pub vcore_ir_type-IsKept :
      (ins : ℕ) (m : Machine W)
      → IsMachine P m
      → ins < 2 ^ 32
      → IsKept P (vcore_ir_type platform ins m)
  unfolding vcore_ir_type
  vcore_ir_type-IsKept ins m w h = finish-IsKept m (rd ins) 0 _ w (omega arith) (λ v e.
      ir_value-lt (r_func ins) _ (i_imm ins) v (w.core.word (rs1 ins)) (i_imm-lt ins h) (func ins)
        (rs2 ins) (omega (arith, rs2_lem ins)) e)

  branch-IsKept :
      (m : Machine W) (ins imm : ℕ) (o : Option Bool)
      → IsMachine P m
      → ins < 2 ^ 32
      → IsKept P (branch platform m ins imm o)
  branch-IsKept m ins imm none w h = trap_and_advance-IsKept m ins w h
  branch-IsKept m ins imm (some taken) w h = advance-IsMachine P m _ w

  pub vcore_b_type-IsKept :
      (ins : ℕ) (m : Machine W)
      → IsMachine P m
      → ins < 2 ^ 32
      → IsKept P (vcore_b_type platform ins m)
  unfolding vcore_b_type
  vcore_b_type-IsKept ins m w h = branch-IsKept m ins (b_imm ins) _ w h

  pub vcore_il_type-IsKept :
      (ins : ℕ) (m : Machine W)
      → IsMachine P m
      → ins < 2 ^ 32
      → IsKept P (vcore_il_type platform ins m)
  unfolding vcore_il_type
  vcore_il_type-IsKept ins m w h =
      Holds-if Q (func ins == Op.lb) _ _
        (load-IsKept P m (rd ins) _ (extend 0x80 0xFFFFFF00) w
          (byte (λ v k. extend-lt 0x80 0xFFFFFF00 v (omega arith) (omega arith))))
        (Holds-if Q (func ins == Op.lh) _ _
          (load-IsKept P m (rd ins) _ (extend 0x8000 0xFFFF0000) w
            (half (λ v k. extend-lt 0x8000 0xFFFF0000 v (omega arith) (omega arith))))
          (Holds-if Q (func ins == Op.lw) _ _
            (load-IsKept P m (rd ins) _ (λ v. v) w (mem_rw-Holds m.mem addr w.bytes))
            (Holds-if Q (func ins == Op.lbu) _ _
              (load-IsKept P m (rd ins) _ (λ v. v) w (byte (λ v k. omega arith)))
              (Holds-if Q (func ins == Op.lhu) _ _
                (load-IsKept P m (rd ins) _ (λ v. v) w (half (λ v k. omega arith)))
                (trap_and_advance-IsKept m ins w h)))))
    where
      Q : Machine W → Type 0
      Q = IsMachine P

      addr : ℕ
      addr = add32 (reg m (rs1 ins)) (i_imm ins)

      byte :
          {f : ℕ → ℕ}
          → ((v : ℕ) → v < 2 ^ 8 → f v < 2 ^ 32)
          → Holds (λ v. f v < 2 ^ 32) (mem_rb m.mem addr)
      byte k = Holds-intro _ _ (λ v e. k v (mem_rb-lt m.mem addr v w.bytes e))

      half :
          {f : ℕ → ℕ}
          → ((v : ℕ) → v < 2 ^ 16 → f v < 2 ^ 32)
          → Holds (λ v. f v < 2 ^ 32) (mem_rh m.mem addr)
      half k = Holds-intro _ _ (λ v e. k v (mem_rh-lt m.mem addr v w.bytes e))

  pub vcore_s_type-IsKept :
      (ins : ℕ) (m : Machine W)
      → IsMachine P m
      → ins < 2 ^ 32
      → IsKept P (vcore_s_type platform ins m)
  unfolding vcore_s_type
  vcore_s_type-IsKept ins m w h =
      Holds-if (IsMachine P) (func ins == Op.sb) _ _
        (store-IsKept P m _ w (mem_wb-Holds m.mem _ _ w.bytes))
        (Holds-if (IsMachine P) (func ins == Op.sh) _ _
          (store-IsKept P m _ w (mem_wh-Holds m.mem _ _ w.bytes))
          (Holds-if (IsMachine P) (func ins == Op.sw) _ _
            (store-IsKept P m _ w (mem_ww-Holds m.mem _ _ w.bytes))
            (trap_and_advance-IsKept m ins w h)))

  amo_or_trap-IsKept :
      (m : Machine W) (ins : ℕ) (o : Option Fetched)
      → IsMachine P m
      → ins < 2 ^ 32
      → ((r : Fetched) → o ≡ some r → Holds IsFetched r)
      → IsKept P (amo_or_trap platform m ins o)
  amo_or_trap-IsKept m ins none w h k = trap_and_advance-IsKept m ins w h
  amo_or_trap-IsKept m ins (some r) w h k = fetch-IsKept P m (rd ins) r w (k r refl)

  pub vcore_a_type-IsKept :
      (ins : ℕ) (m : Machine W)
      → IsMachine P m
      → ins < 2 ^ 32
      → IsKept P (vcore_a_type platform ins m)
  unfolding vcore_a_type
  vcore_a_type-IsKept ins m w h =
      Holds-if (IsMachine P) (a_func ins == Op.lr) _ _ (load_reserved-IsKept P m _ w) (
        Holds-if (IsMachine P) (a_func ins == Op.sc) _ _
          (store_conditional-IsKept P m (rd ins) _ _ w)
          (amo_or_trap-IsKept m ins _ w h
            (λ r e. amo-IsFetched (a_func ins) m.mem _ _ r w.bytes e)))
