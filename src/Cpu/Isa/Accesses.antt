-- ===== src/Cpu/Isa/Accesses.antt =====
-- One round of the loop of `vcore_run` of src/cpu.c against a step of the manual: loads and stores,
-- the accesses outside of the memory included.
use switch_v.Common.{ℕ, ◌^◌, ◌<◌, ◌≡◌, refl, ap, ◌∙◌, arith}
use switch_v.Common.Word.{add32}
use switch_v.Common.Outcome.{Outcome, ok, stop, ◌>>=◌, Holds, Holds-mono}
use switch_v.Memory.{Memory, mem_rb, mem_rh, mem_rw}
use switch_v.Memory.Laws.{IsBytes}
use switch_v.Memory.Words.{mem_rb-Holds, mem_rh-Holds}
use switch_v.Cpu.Op
use switch_v.Cpu.Reg
use switch_v.Cpu.Decode.{opcode_type, rd, rs1, rs2, func, i_imm, s_imm}
use switch_v.Cpu.Decode.Fields.{sign_extend}
use switch_v.Cpu.Decode.Encoding.{encode_i, encode_s, decode-encode_i, decode-encode_s}
use switch_v.Cpu.State.{Machine, reg, Platform}
use switch_v.Cpu.Instructions.{loaded, stored, vcore_il_type, vcore_s_type}
use switch_v.Cpu.Run.{execute}
use switch_v.Cpu.Round.{reset, round}
use switch_v.Cpu.Isa
use switch_v.Cpu.Isa.{LoadOp, StoreOp, Instr, load, store, load_func3, store_func3}
use switch_v.Cpu.Isa.Results.{load_result, store_result}
use switch_v.Cpu.Isa.Hart.{set_gpr, next, hart_of, observe, gpr-reset, hart_of-jump}
use switch_v.Cpu.Isa.Values.{load_func3-lt, store_func3-lt, extend-byte, extend-half}
use switch_v.Cpu.Isa.Transfers.{Refines, hart_of-advance}

module _ {W : Type 0} (m : Machine W) where
  -- What is read is written to the destination.
  loads :
      (r : Outcome ℕ) (d : ℕ)
      → d < 2 ^ 5
      → observe (r >>= λ v. loaded (reset m) d v) ≡ (r >>= λ v. ok (next (set_gpr (hart_of m) d v)))
  loads (ok v) d h = ap ok (hart_of-advance m d v 4 h)
  loads (stop e) d h = refl

  -- So it is when it has been extended, by two functions that agree on it.
  extends :
      (r : Outcome ℕ) (f g : ℕ → ℕ) (d : ℕ)
      → d < 2 ^ 5
      → Holds (λ v. f v ≡ g v) r
      → observe (r >>= λ v. loaded (reset m) d (f v))
        ≡ ((r >>= λ v. ok (g v)) >>= λ w. ok (next (set_gpr (hart_of m) d w)))
  extends (ok v) f g d h e =
      ap ok (hart_of-advance m d (f v) 4 h) ∙ ap (λ (w : ℕ). ok (next (set_gpr (hart_of m) d w))) e
  extends (stop x) f g d h e = refl

  -- A store leaves the registers alone.
  saves :
      (r : Outcome Memory)
      → observe (r >>= stored (reset m))
        ≡ (r >>= λ mem. ok (next (record (hart_of m) { mem = mem })))
  saves (ok mem) = ap ok (hart_of-jump (record m { mem = mem }) (add32 (reg m Reg.pc) 4))
  saves (stop e) = refl

module _ {W : Type 0} (platform : Platform W) (m : Machine W) where
  -- The handler of loads, for a word with the fields of one.
  executes_load :
      (o : LoadOp) (x d r1 imm : ℕ)
      → IsBytes m.mem
      → d < 2 ^ 5
      → opcode_type x ≡ Op.il_type
      → rd x ≡ d
      → rs1 x ≡ r1
      → func x ≡ load_func3 o
      → i_imm x ≡ imm
      → observe (execute platform x (reset m)) ≡ (
          load_result o m.mem (add32 (reg (reset m) r1) imm) >>= λ v.
          ok (next (set_gpr (hart_of m) d v)))
  unfolding execute vcore_il_type
  executes_load Isa.lb x d r1 imm b hd e0 e1 e2 e3 e4 =
      let addr : ℕ = add32 (reg (reset m) r1) imm in
      let agree =
        Holds-mono (λ v. v < 2 ^ 8) _ (mem_rb m.mem addr) extend-byte (mem_rb-Holds m.mem addr b) in
      rw (e0, e1, e2, e3, e4) (extends m (mem_rb m.mem addr) _ (sign_extend 8) d hd agree)
  executes_load Isa.lh x d r1 imm b hd e0 e1 e2 e3 e4 =
      let addr : ℕ = add32 (reg (reset m) r1) imm in
      let agree =
        Holds-mono (λ v. v < 2 ^ 16) _ (mem_rh m.mem addr) extend-half
          (mem_rh-Holds m.mem addr b) in
      rw (e0, e1, e2, e3, e4) (extends m (mem_rh m.mem addr) _ (sign_extend 16) d hd agree)
  executes_load Isa.lw x d r1 imm b hd e0 e1 e2 e3 e4 =
      rw (e0, e1, e2, e3, e4) (loads m (mem_rw m.mem (add32 (reg (reset m) r1) imm)) d hd)
  executes_load Isa.lbu x d r1 imm b hd e0 e1 e2 e3 e4 =
      rw (e0, e1, e2, e3, e4) (loads m (mem_rb m.mem (add32 (reg (reset m) r1) imm)) d hd)
  executes_load Isa.lhu x d r1 imm b hd e0 e1 e2 e3 e4 =
      rw (e0, e1, e2, e3, e4) (loads m (mem_rh m.mem (add32 (reg (reset m) r1) imm)) d hd)

  pub load-Refines :
      (o : LoadOp) (d r1 imm : ℕ) → IsBytes m.mem → Refines platform m (load o d r1 imm)
  load-Refines o d r1 imm b (hd, h1, hi) fetch =
      let x : ℕ = encode_i imm r1 (load_func3 o) d Op.il_type in
      let f = load_func3-lt o in
      let fields = decode-encode_i imm r1 (load_func3 o) d Op.il_type hi h1 f hd (omega arith) in
      ap observe (round platform m x fetch (omega arith))
      ∙ executes_load o x d r1 (sign_extend 12 imm) b hd fields.0 fields.1 fields.2 fields.3
          fields.4
      ∙ rw (gpr-reset m r1 h1)

  -- The handler of stores, for a word with the fields of one.
  executes_store :
      (o : StoreOp) (x r1 r2 imm : ℕ)
      → opcode_type x ≡ Op.s_type
      → rs1 x ≡ r1
      → rs2 x ≡ r2
      → func x ≡ store_func3 o
      → s_imm x ≡ imm
      → observe (execute platform x (reset m)) ≡ (
          store_result o m.mem (add32 (reg (reset m) r1) imm) (reg (reset m) r2) >>= λ mem.
          ok (next (record (hart_of m) { mem = mem })))
  unfolding execute vcore_s_type
  executes_store Isa.sb x r1 r2 imm e0 e1 e2 e3 e4 = rw (e0, e1, e2, e3, e4) (saves m _)
  executes_store Isa.sh x r1 r2 imm e0 e1 e2 e3 e4 = rw (e0, e1, e2, e3, e4) (saves m _)
  executes_store Isa.sw x r1 r2 imm e0 e1 e2 e3 e4 = rw (e0, e1, e2, e3, e4) (saves m _)

  pub store-Refines : (o : StoreOp) (r1 r2 imm : ℕ) → Refines platform m (store o r1 r2 imm)
  store-Refines o r1 r2 imm (h1, h2, hi) fetch =
      let x : ℕ = encode_s imm r2 r1 (store_func3 o) Op.s_type in
      let f = store_func3-lt o in
      let fields = decode-encode_s imm r2 r1 (store_func3 o) Op.s_type hi h2 h1 f (omega arith) in
      ap observe (round platform m x fetch (omega arith))
      ∙ executes_store o x r1 r2 (sign_extend 12 imm) fields.0 fields.1 fields.2 fields.3 fields.4
      ∙ rw (gpr-reset m r1 h1, gpr-reset m r2 h2)
