-- ===== src/Cpu/Invariant/Steps.antt =====
-- What the instructions of src/cpu.c have in common keeps the well-formed states, and so do those
-- that cannot trap.
use switch_v.Common.{ℕ, ◌^◌, ◌<◌, ◌≡◌, arith}
use switch_v.Common.{Bool, true, false, Option, some, ◌==◌, if◌then◌else◌}
use switch_v.Common.Bits.{bit_or-lt}
use switch_v.Common.Outcome.{Outcome, Holds, Holds-intro, Holds->>=, Holds-if, ◌>>=◌}
use switch_v.Memory.{Memory, Fetched, mem_rw, mem_cas, mem_aread}
use switch_v.Memory.Laws.{IsBytes, mem_rw-lt}
use switch_v.Memory.Words.{IsFetched, mem_cas-Holds, amo-Holds}
use switch_v.Cpu.Op
use switch_v.Cpu.Reg
use switch_v.Cpu.Decode.{rd, i_imm, u_imm}
use switch_v.Cpu.Decode.Fields.{i_imm_lem, u_imm_lem}
use switch_v.Cpu.State.{Machine, write}
use switch_v.Cpu.Instructions.{
  advance, extend, loaded, stored, fetched, load_reserved, store_conditional, amo, vcore_j_type,
  vcore_ij_type, vcore_lui_type, vcore_auipc_type,
}
use switch_v.Cpu.Invariant.Defs.{IsMachine, IsKept, write-IsMachine, advance-IsMachine}

pub i_imm-lt : (ins : ℕ) → ins < 2 ^ 32 → i_imm ins < 2 ^ 32
i_imm-lt ins h = ground (arith, i_imm_lem ins h)

pub extend-lt : (sign ones v : ℕ) → ones < 2 ^ 32 → v < 2 ^ 32 → extend sign ones v < 2 ^ 32
extend-lt sign ones v ho hv = ground (arith, bit_or-lt 32 v ones)

-- What holds of the first choice and of the later ones holds of the choice.
choose :
    (b : Bool) (x : Fetched) (rest : Option Fetched)
    → Holds IsFetched x
    → ((r : Fetched) → rest ≡ some r → Holds IsFetched r)
    → (r : Fetched) → (if b then some x else rest) ≡ some r
    → Holds IsFetched r
choose true x rest h k r e = let same : x ≡ r = cc in rw same at h
choose false x rest h k r e = k r e

pub amo-IsFetched :
    (f : ℕ) (m : Memory) (addr v : ℕ) (r : Fetched)
    → IsBytes m
    → amo f m addr v ≡ some r
    → Holds IsFetched r
unfolding amo
amo-IsFetched f m addr v r b e =
    let all = amo-Holds m addr v b in
    choose (f == Op.aswp) _ _ all.4
      (choose (f == Op.aadd) _ _ all.0 (
        choose (f == Op.aand) _ _ all.1 (
          choose (f == Op.aor) _ _ all.2 (
            choose (f == Op.axor) _ _ all.3 (
              choose (f == Op.amax) _ _ all.5 (
                choose (f == Op.amin) _ _ all.6 (
                  choose (f == Op.amaxu) _ _ all.7
                    (choose (f == Op.aminu) _ _ all.8 (λ r e. cc)))))))))
      r e

module _ {W : Type 0} (P : W → Type 0) where
  -- The well-formed state after a destination is written and the program counter advanced.
  pub finished :
      (m : Machine W) (dest v : ℕ)
      → IsMachine P m
      → v < 2 ^ 32
      → IsMachine P (advance (write m dest v) 4)
  finished m dest v w h = advance-IsMachine P _ 4 (write-IsMachine P m dest v w h)

  pub vcore_j_type-IsKept :
      (ins : ℕ) (m : Machine W) → IsMachine P m → IsKept P (vcore_j_type ins m)
  unfolding vcore_j_type
  vcore_j_type-IsKept ins m w =
      advance-IsMachine P _ _ (write-IsMachine P m (rd ins) _ w (omega arith))

  pub vcore_ij_type-IsKept :
      (ins : ℕ) (m : Machine W) → IsMachine P m → IsKept P (vcore_ij_type ins m)
  unfolding vcore_ij_type
  vcore_ij_type-IsKept ins m w =
      write-IsMachine P _ Reg.pc _ (write-IsMachine P m (rd ins) _ w (omega arith)) (omega arith)

  pub vcore_lui_type-IsKept :
      (ins : ℕ) (m : Machine W) → IsMachine P m → ins < 2 ^ 32 → IsKept P (vcore_lui_type ins m)
  unfolding vcore_lui_type
  vcore_lui_type-IsKept ins m w h =
      finished m (rd ins) (u_imm ins) w (omega (arith, u_imm_lem ins h))

  pub vcore_auipc_type-IsKept :
      (ins : ℕ) (m : Machine W) → IsMachine P m → IsKept P (vcore_auipc_type ins m)
  unfolding vcore_auipc_type
  vcore_auipc_type-IsKept ins m w = finished m (rd ins) _ w (omega arith)

  pub load_reserved-IsKept :
      (m : Machine W) (addr : ℕ) → IsMachine P m → IsKept P (load_reserved m addr)
  unfolding load_reserved mem_aread
  load_reserved-IsKept m addr w =
      Holds->>= (λ v. v < 2 ^ 32) (IsMachine P) (mem_rw m.mem addr) _
        (Holds-intro _ _ (λ v e. mem_rw-lt m.mem addr v w.bytes e))
        (λ v h. advance-IsMachine P _ 4 (record {
          core = record { word = w.core.word; kept = h; brk = w.core.brk };
          bytes = w.bytes;
          world = w.world;
        }))

  -- What is left of a load: the value is written and the program counter advanced.
  pub load-IsKept :
      (m : Machine W) (dest : ℕ) (r : Outcome ℕ) (f : ℕ → ℕ)
      → IsMachine P m
      → Holds (λ v. f v < 2 ^ 32) r
      → IsKept P (r >>= λ v. loaded m dest (f v))
  load-IsKept m dest r f w h =
      Holds->>= (λ v. f v < 2 ^ 32) (IsMachine P) r _ h (λ v k. finished m dest (f v) w k)

  pub store-IsKept :
      (m : Machine W) (r : Outcome Memory)
      → IsMachine P m
      → Holds IsBytes r
      → IsKept P (r >>= stored m)
  store-IsKept m r w h = Holds->>= IsBytes (IsMachine P) r (stored m) h (λ mem b.
      advance-IsMachine P (record m { mem = mem }) 4
        (record { core = w.core; bytes = b; world = w.world }))

  pub fetch-IsKept :
      (m : Machine W) (dest : ℕ) (r : Fetched)
      → IsMachine P m
      → Holds IsFetched r
      → IsKept P (fetched m dest r)
  fetch-IsKept m dest r w h = Holds->>= IsFetched (IsMachine P) r _ h (λ p k.
      finished (record m { mem = p.1 }) dest p.0
        (record { core = w.core; bytes = k.1; world = w.world }) k.0)

  pub store_conditional-IsKept :
      (m : Machine W) (dest addr v : ℕ) → IsMachine P m → IsKept P (store_conditional m dest addr v)
  unfolding store_conditional
  store_conditional-IsKept m dest addr v w =
      Holds-if (IsMachine P) m.core.ll_sc_flag _ _
        (Holds->>= IsBytes (IsMachine P) (mem_cas m.mem addr v m.core.reserved) _
          (mem_cas-Holds m.mem addr v m.core.reserved w.bytes)
          (λ mem b.
            finished _ dest 0
              (record {
                core = record { word = w.core.word; kept = w.core.kept; brk = w.core.brk };
                bytes = b;
                world = w.world;
              })
              (omega arith)))
        (write-IsMachine P m dest 1 w (omega arith))
