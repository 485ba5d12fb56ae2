-- ===== src/Cpu/Isa/Atomics.antt =====
-- One round of the loop of `vcore_run` of src/cpu.c against a step of the manual: the AMOs.
use switch_v.Common.{ℕ, ◌+◌, ◌*◌, ◌^◌, ◌≤◌, ◌<◌, ◌≡◌, ◌≢◌, refl, ap, fun_ext, ◌∙◌, arith}
use switch_v.Common.{Bool, true, false, some, Bool-cases, inl, inr, ltb, leb, ◌==◌, if◌then◌else◌}
use switch_v.Common.Int.{ltb_ℤ}
use switch_v.Common.Word.{signed32}
use switch_v.Common.Outcome.{Outcome, ok, stop, undefined, ◌>>=◌}
use switch_v.Memory.{
  Memory, Fetched, mem_rw, mem_ww, mem_fetch, mem_aread, mem_cas, keep_or_cas, mem_aswp, mem_aadd,
  mem_aand, mem_axor, mem_amax, mem_amin, mem_amaxu, mem_aminu,
}
use switch_v.Memory.Laws.{IsBytes, with_word, mem_ww-mapped}
use switch_v.Memory.Atomic.{word_at, mem_rw-mapped, mem_cas_loop_stores}
use switch_v.Cpu.Op
use switch_v.Cpu.Reg
use switch_v.Cpu.Decode.Encoding.{encode_r, decode-encode_r}
use switch_v.Cpu.State.{Machine, reg, Platform}
use switch_v.Cpu.Instructions.{advance, ill_ins, fetched, amo_or_trap, vcore_a_type}
use switch_v.Cpu.Instructions
use switch_v.Cpu.Run.{execute, iterate}
use switch_v.Cpu.Round.{reset, round}
use switch_v.Cpu.Isa
use switch_v.Cpu.Isa.{AmoOp, encode, amo_func5}
use switch_v.Cpu.Isa.Results.{amo_result}
use switch_v.Cpu.Isa.Hart.{set_gpr, next, hart_of, observe, gpr-reset}
use switch_v.Cpu.Isa.Values.{amo_func5-lt}
use switch_v.Cpu.Decode.{a_func}
use switch_v.Cpu.Isa.Transfers.{Refines, hart_of-advance}

-- The selector of an AMO: its func5 and func3.
abbrev pub selector : AmoOp → ℕ
selector o = amo_func5 o * 2 ^ 4 + 2

-- A word that is read, and a function of it that is written back.
abbrev pub exchanged : (ℕ → ℕ → ℕ) → Memory → ℕ → ℕ → Fetched
exchanged f m addr v = mem_rw m addr >>= λ old. mem_ww m addr (f old v) >>= λ m'. ok (old, m')

-- Writing a word back over itself changes nothing.
with_word-same : (m : Memory) (addr : ℕ) → IsBytes m → with_word m addr (word_at m addr) ≡ m
with_word-same m addr b =
    ap (λ (c : ℕ → ℕ). record m { cell = c })
      (fun_ext
        λ j. ground (arith, b.byte addr, b.byte (addr + 1), b.byte (addr + 2), b.byte (addr + 3)))

mem_rw-unmapped :
    (m : Memory) (addr : ℕ) → leb (addr + 4) m.size ≡ false → mem_rw m addr ≡ stop undefined
unfolding mem_rw
mem_rw-unmapped m addr outside = rw outside

-- An AMO that keeps the old word by a test does not write it back.
keep_or_cas-exchanged :
    (keep : ℕ → ℕ → Bool) (m : Memory) (addr v : ℕ)
    → IsBytes m
    → (mem_aread m addr >>= λ old. keep_or_cas (keep old v) m addr v old)
      ≡ exchanged (λ old w. if keep old w then old else w) m addr v
unfolding mem_aread mem_cas
keep_or_cas-exchanged keep m addr v b = elim (Bool-cases (leb (addr + 4) m.size)) [
  | inl inside ↦ mapped inside
  | inr outside ↦ simp (mem_rw-unmapped m addr outside)
]
  where
    mapped :
        leb (addr + 4) m.size ≡ true
        → (mem_aread m addr >>= λ old. keep_or_cas (keep old v) m addr v old)
          ≡ exchanged (λ old w. if keep old w then old else w) m addr v
    mapped inside =
        let fits : addr + 4 ≤ m.size = ground arith in
        let old : ℕ = word_at m addr in
        elim (Bool-cases (keep old v)) [
          | inl kept ↦ simp (
            mem_rw-mapped m addr fits,
            kept,
            mem_ww-mapped m addr old fits,
            with_word-same m addr b,
          )
          | inr moved ↦
              simp (mem_rw-mapped m addr fits, moved, mem_cas_loop_stores 0 m addr v old fits)
        ]

-- Every AMO but AMOOR exchanges the word for what the manual says, and none is LR or SC.
amo-exchanged :
    (o : AmoOp) (m : Memory) (addr v : ℕ)
    → IsBytes m
    → o ≢ Isa.amoor
    → Instructions.amo (selector o) m addr v ≡ some (exchanged (amo_result o) m addr v)
unfolding Instructions.amo mem_aswp mem_aadd mem_axor mem_aand mem_amin mem_amax mem_aminu mem_amaxu
    mem_fetch
amo-exchanged Isa.amoswap m addr v b other = refl
amo-exchanged Isa.amoadd m addr v b other = refl
amo-exchanged Isa.amoxor m addr v b other = refl
amo-exchanged Isa.amoand m addr v b other = refl
amo-exchanged Isa.amoor m addr v b other = absurd (other refl)
amo-exchanged Isa.amomin m addr v b other =
    ap some (keep_or_cas-exchanged (λ old w. ltb_ℤ (signed32 old) (signed32 w)) m addr v b)
amo-exchanged Isa.amomax m addr v b other =
    ap some (keep_or_cas-exchanged (λ old w. ltb_ℤ (signed32 w) (signed32 old)) m addr v b)
amo-exchanged Isa.amominu m addr v b other =
    ap some (keep_or_cas-exchanged (λ old w. ltb old w) m addr v b)
amo-exchanged Isa.amomaxu m addr v b other =
    ap some (keep_or_cas-exchanged (λ old w. ltb w old) m addr v b)

selector_other : (o : AmoOp) → ((selector o == Op.lr) ≡ false) × ((selector o == Op.sc) ≡ false)
selector_other o = (grind arith, grind arith)

module _ {W : Type 0} (m : Machine W) where
  -- The word that was there is written to the destination.
  fetches :
      (f : ℕ → ℕ → ℕ) (addr v d : ℕ)
      → d < 2 ^ 5
      → observe (fetched (reset m) d (exchanged f m.mem addr v)) ≡ (
          mem_rw m.mem addr >>= λ old. mem_ww m.mem addr (f old v) >>= λ mem.
          ok (next (set_gpr (record (hart_of m) { mem = mem }) d old)))
  fetches f addr v d h = by_read (mem_rw m.mem addr)
    where
      by_write :
          (old : ℕ) (r : Outcome Memory)
          → observe (fetched (reset m) d (r >>= λ mem. ok (old, mem)))
            ≡ (r >>= λ mem. ok (next (set_gpr (record (hart_of m) { mem = mem }) d old)))
      by_write old (ok mem) = ap ok (hart_of-advance (record m { mem = mem }) d old 4 h)
      by_write old (stop e) = refl

      by_read :
          (r : Outcome ℕ)
          → observe (
              fetched
                (reset m)
                d
                (r >>= λ old. mem_ww m.mem addr (f old v) >>= λ mem. ok (old, mem)))
            ≡ (r >>= λ old. mem_ww m.mem addr (f old v) >>= λ mem.
                ok (next (set_gpr (record (hart_of m) { mem = mem }) d old)))
      by_read (ok old) = by_write old (mem_ww m.mem addr (f old v))
      by_read (stop e) = refl

module _ {W : Type 0} (platform : Platform W) (m : Machine W) where
  pub amo-Refines :
      (o : AmoOp) (order d r1 r2 : ℕ) → IsBytes m.mem → Refines platform m (Isa.amo o order d r1 r2)
  unfolding execute vcore_a_type
  amo-Refines o order d r1 r2 b (ho, hd, h1, h2, other) fetch =
      let f7 : ℕ = amo_func5 o * 4 + order in
      let x : ℕ = encode_r f7 r2 r1 2 d Op.a_type in
      let f5 = amo_func5-lt o in
      let fields =
        decode-encode_r f7 r2 r1 2 d Op.a_type (omega arith) h2 h1 (omega arith) hd (omega arith) in
      let same : a_func x ≡ selector o = fields.5 ∙ omega arith in
      let neither = selector_other o in
      let addr : ℕ = reg (reset m) r1 in
      let v : ℕ = reg (reset m) r2 in
      let done = amo-exchanged o m.mem addr v b other in
      let ran : iterate platform m ≡ fetched (reset m) d (exchanged (amo_result o) m.mem addr v) =
        round platform m x fetch (omega arith)
        ∙ rw (fields.0, fields.2, fields.3, same, neither.0, neither.1, done)
            (ap (λ (t : ℕ). fetched (reset m) t (exchanged (amo_result o) m.mem addr v))
              fields.1) in
      ap observe ran
      ∙ fetches m (amo_result o) addr v d hd
      ∙ rw (gpr-reset m r1 h1, gpr-reset m r2 h2)

  -- AMOOR, as the manual encodes it, is an illegal instruction: the emulator looks for its func5 at
  -- the number 10 where the manual has 8.
  pub iterate-amoor :
      (order d r1 r2 : ℕ)
      → order < 4
      → d < 2 ^ 5
      → r1 < 2 ^ 5
      → r2 < 2 ^ 5
      → mem_rw m.mem (reg m Reg.pc) ≡ ok (encode (Isa.amo Isa.amoor order d r1 r2))
      → iterate platform m ≡ (
          platform.dispatch_trap ill_ins (encode (Isa.amo Isa.amoor order d r1 r2)) (reset m)
          >>= λ m'. ok (advance m' 4))
  unfolding execute vcore_a_type Instructions.amo
  iterate-amoor order d r1 r2 ho hd h1 h2 fetch =
      let f7 : ℕ = amo_func5 Isa.amoor * 4 + order in
      let x : ℕ = encode_r f7 r2 r1 2 d Op.a_type in
      let fields =
        decode-encode_r f7 r2 r1 2 d Op.a_type (omega arith) h2 h1 (omega arith) hd (omega arith) in
      let same : a_func x ≡ 130 = fields.5 ∙ omega arith in
      round platform m x fetch (omega arith) ∙ rw (fields.0, same)
