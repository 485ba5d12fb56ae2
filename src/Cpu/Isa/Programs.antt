-- ===== src/Cpu/Isa/Programs.antt =====
-- Programs: the runs of `vcore_run` of src/cpu.c against the steps of a hart that the RISC-V manual
-- allows.
use switch_v.Common.{ℕ, zero, suc, ◌≡◌, refl, sym, subst, ap, ◌∙◌}
use switch_v.Common.{Bool, false, List, [], ◌∷◌}
use switch_v.Common.Outcome.{ok, Holds, Holds_elim, Holds-after}
use switch_v.Memory.{mem_rw, mem_ww}
use switch_v.Common.Word.{add32}
use switch_v.Cpu.Decode.Fields.{sign_extend}
use switch_v.Cpu.State.{VCore, Machine, Platform}
use switch_v.Cpu.Run.{running, iterate, vcore_run}
use switch_v.Cpu.Invariant.{IsMachine, KeepsWords, iterate-IsKept}
use switch_v.Cpu.Isa.{
  Instr, alu, alu_imm, shift_imm, load, store, branch, jal, jalr, lui, auipc, amo, encode, IsInstr,
}
use switch_v.Cpu.Isa.Results.{load_result, store_result, amo_result}
use switch_v.Cpu.Isa.Hart.{Hart, step, hart_of, observe-ok}
use switch_v.Cpu.Isa.Refines.{IsAligned, iterate-step}

-- `n` steps of a hart, each by the instruction that is in memory at its program counter then, with
-- no misaligned exception.
pub data Steps {W : Type 0} : ℕ → Hart W → Hart W → Type 0 where
  halts : (h : Hart W) → Steps 0 h h
  steps :
      (n : ℕ) (h h' h'' : Hart W) (i : Instr)
      → IsInstr i
      → IsAligned i h
      → mem_rw h.mem h.pc ≡ ok (encode i)
      → step i h ≡ ok h'
      → Steps n h' h''
      → Steps (suc n) h h''

-- No other thread signals the core in any of `n` rounds.
abbrev pub undisturbed : ℕ → List Bool
undisturbed zero = []
undisturbed (suc n) = false ∷ undisturbed n

module _ {W : Type 0} where
  -- A step leaves the rest of the core alone, so also the flag that ends the loop, and the control
  -- registers.
  abbrev IsBeside : Hart W → Hart W → Type 0
  IsBeside h h' = (h'.other ≡ h.other) × (h'.csr ≡ h.csr)

  step-Holds : (i : Instr) (h : Hart W) → Holds (IsBeside h) (step i h)
  step-Holds (alu o d r1 r2) h = (refl, refl)
  step-Holds (alu_imm o d r1 imm) h = (refl, refl)
  step-Holds (shift_imm o d r1 k) h = (refl, refl)
  step-Holds (load o d r1 imm) h =
      Holds-after (IsBeside h) (load_result o h.mem (add32 (h.gpr r1) (sign_extend 12 imm))) _
        (λ v. (refl, refl))
  step-Holds (store o r1 r2 imm) h =
      Holds-after (IsBeside h)
        (store_result o h.mem (add32 (h.gpr r1) (sign_extend 12 imm)) (h.gpr r2)) _
        (λ mem. (refl, refl))
  step-Holds (branch o r1 r2 k) h = (refl, refl)
  step-Holds (jal d k) h = (refl, refl)
  step-Holds (jalr d r1 imm) h = (refl, refl)
  step-Holds (lui d upper) h = (refl, refl)
  step-Holds (auipc d upper) h = (refl, refl)
  step-Holds (amo o order d r1 r2) h = Holds-after (IsBeside h) (mem_rw h.mem (h.gpr r1)) _ (λ old.
      Holds-after (IsBeside h) (mem_ww h.mem (h.gpr r1) (amo_result o old (h.gpr r2))) _
        (λ mem. (refl, refl)))

module _ {W : Type 0} (P : W → Type 0) (platform : Platform W) (laws : KeepsWords P platform)
    (IsCalm : (ℕ → ℕ) → VCore → Type 0)
    (quiet : (m : Machine W)
      → IsCalm (hart_of m).csr (hart_of m).other
      → platform.check_interrupts m ≡ ok m) where
  -- A round with no signal and the flag clear is followed by the rest of the run.
  goes_on :
      (rest : List Bool) (m m1 : Machine W)
      → iterate platform m ≡ ok m1
      → m1.core.atomic_exit_loop ≡ false
      → IsCalm (hart_of m1).csr (hart_of m1).other
      → vcore_run platform (false ∷ rest) m ≡ vcore_run platform rest m1
  unfolding vcore_run
  goes_on rest m m1 ran flag calm = simp (ran, flag, quiet m1 calm)

  -- A core in a well-formed state whose flag is clear, that no other thread signals, and whose control
  -- registers let no interrupt through, runs, for as many rounds, whatever steps the manual allows from its
  -- hart: it does not stop, it is still running then, and its hart is where the steps lead.
  pub vcore_run-Steps :
      (n : ℕ) (m : Machine W) (h h' : Hart W)
      → IsMachine P m
      → m.core.atomic_exit_loop ≡ false
      → hart_of m ≡ h
      → IsCalm h.csr h.other
      → Steps n h h'
      → (m' : Machine W) × (vcore_run platform (undisturbed n) m ≡ ok (running m'))
        × (hart_of m' ≡ h')
        × IsMachine P m'
  unfolding vcore_run
  vcore_run-Steps n m h h' w flag view calm (halts _) = (m, refl, view, w)
  vcore_run-Steps n m h h' w flag view calm (steps k _ g _ i f e fetch s rest) =
      let refined = iterate-step P platform m i w f (rw (← view) at e) (rw (← view) at fetch) in
      let (m1, ran, view1) = observe-ok (iterate platform m) g (refined ∙ ap (step i) view ∙ s) in
      let w1 = Holds_elim (IsMachine P) _ m1 (iterate-IsKept P platform laws m w) ran in
      let (kept, kept_csr) = Holds_elim (IsBeside h) _ g (step-Holds i h) s in
      let calm' : IsCalm g.csr g.other = rw (kept, kept_csr) calm in
      let flag1 : m1.core.atomic_exit_loop ≡ false =
        exit_flag view1
        ∙ ap (λ (c : VCore). c.atomic_exit_loop) kept
        ∙ sym (exit_flag view)
        ∙ flag in
      let (m', ran', view', w') = vcore_run-Steps k m1 g h' w1 flag1 view1 calm' rest in
      (
        m',
        goes_on (undisturbed k) m m1 ran flag1
              (subst (λ (x : Hart W). IsCalm x.csr x.other) (sym view1) calm')
            ∙ ran',
        view',
        w',
      )
    where
      exit_flag : {x y : Hart W} → x ≡ y → x.other.atomic_exit_loop ≡ y.other.atomic_exit_loop
      exit_flag p = ap (λ (x : Hart W). x.other.atomic_exit_loop) p
