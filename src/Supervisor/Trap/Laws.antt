-- ===== src/Supervisor/Trap/Laws.antt =====
-- What a trap of src/supervisor/trap.c does to the registers, and when an interrupt is taken.
use switch_v.Common.{ℕ, ◌*◌, ◌/◌, ◌%◌, ◌^◌, ◌≤◌, ◌<◌, ◌≡◌, ◌≢◌, refl, ap, ◌∙◌, arith}
use switch_v.Common.{◌⊎◌, inl, inr, Bool-cases, Bool, true, false, ◌==◌, if◌then◌else◌}
use switch_v.Common.Bits.{bit_and_low}
use switch_v.Common.Word.{add32, u32}
use switch_v.Common.Outcome.{Outcome, ok, stop, aborts, ◌>>=◌}
use switch_v.Cpu.Reg
use switch_v.Cpu.Decode.Fields.{masked}
use switch_v.Cpu.State.{VCore, set_reg, Machine, reg, supervisor_mode}
use switch_v.Supervisor.Csr.{stvec_mode, stvec_base}
use switch_v.Supervisor.Trap.{
  enter_trap, interrupt_code, dispatch_trap, check_interrupts, is_masked, external_pending,
  software_pending, timer_pending, supervisor_external_interrupt, supervisor_software_interrupt,
  supervisor_timer_interrupt, trap_if,
}

stvec_mode_lem : (x : ℕ) → stvec_mode x ≡ x % 4
unfolding stvec_mode
stvec_mode_lem x = bit_and_low 2 x

stvec_base_lem : (x : ℕ) → x < 2 ^ 32 → stvec_base x ≡ x / 4 * 4
unfolding stvec_base
stvec_base_lem x h = omega (arith, masked 30 2 x)

interrupt_code_lem : (x : ℕ) → interrupt_code x ≡ x % 2 ^ 31
unfolding interrupt_code
interrupt_code_lem x = bit_and_low 31 x

-- What both kinds of trap leave: the cause, the interrupted address, the mode, and every register
-- that is not one of the five of a trap.
pub record IsTrapped {W : Type 0} (code : ℕ) (m m' : Machine W) : Type 0 where
  pub cause : reg m' Reg.scause ≡ code
  pub interrupted : reg m' Reg.sepc ≡ reg m Reg.pc
  pub mode : m'.core.mode ≡ supervisor_mode
  pub others :
      (i : ℕ) → i ≢ Reg.scause → i ≢ Reg.sepc → i ≢ Reg.stval → i ≢ Reg.pc → reg m' i ≡ reg m i

-- The core after an exception, and after an interrupt that goes to an address.
abbrev pub after_exception : VCore → ℕ → ℕ → VCore
after_exception core code v =
    set_reg (set_reg (enter_trap core code) Reg.stval v) Reg.pc (stvec_base (core.regs Reg.stvec))

abbrev pub after_interrupt : VCore → ℕ → ℕ → VCore
after_interrupt core code target = set_reg (enter_trap core code) Reg.pc target

-- An exception is always taken: it keeps its cause, its value and the address where it arose, goes
-- to the base of STVEC in supervisor mode, and changes no other register. SSTATUS is one of these:
-- neither the interrupt enable nor the previous mode is saved in it.
pub dispatch_trap-exception :
    {W : Type 0} (code v : ℕ) (m : Machine W)
    → code < 2 ^ 31
    → reg m Reg.stvec < 2 ^ 32
    → (m' : Machine W) × (dispatch_trap code v m ≡ ok m')
      × IsTrapped code m m'
      × (reg m' Reg.stval ≡ v)
      × (reg m' Reg.pc ≡ reg m Reg.stvec / 4 * 4)
unfolding dispatch_trap
dispatch_trap-exception code v m hc hs = (
  record m { core = after_exception m.core code v },
  ground arith,
  record { cause = refl; interrupted = refl; mode = refl; others = λ i a b c d. ground arith },
  refl,
  stvec_base_lem (reg m Reg.stvec) hs,
)

-- Where an interrupt goes: the base of STVEC, in the vectored mode moved by four bytes for each
-- number of the cause.
abbrev pub vector : ℕ → ℕ → ℕ
vector stvec code =
    if stvec % 4 == 0 then stvec / 4 * 4 else add32 (stvec / 4 * 4) (u32 (code % 2 ^ 31 * 4))

abbrev pub interrupted_to : {W : Type 0} → Machine W → ℕ → Machine W
interrupted_to m code = record m {
  core = after_interrupt m.core code (vector (reg m Reg.stvec) code);
}

interrupt_eq :
    {W : Type 0} (code v : ℕ) (m : Machine W)
    → 2 ^ 31 ≤ code
    → reg m Reg.stvec < 2 ^ 32
    → reg m Reg.stvec % 4 < 2
    → dispatch_trap code v m ≡ ok (interrupted_to m code)
unfolding dispatch_trap
interrupt_eq code v m hc hs mode = ground (
  arith,
  stvec_mode_lem (reg m Reg.stvec),
  stvec_base_lem (reg m Reg.stvec) hs,
  interrupt_code_lem code,
)

-- An interrupt is taken in the two defined modes of STVEC, and leaves STVAL and every register but
-- SCAUSE, SEPC and the program counter alone.
pub dispatch_trap-interrupt :
    {W : Type 0} (code v : ℕ) (m : Machine W)
    → 2 ^ 31 ≤ code
    → reg m Reg.stvec < 2 ^ 32
    → reg m Reg.stvec % 4 < 2
    → (m' : Machine W) × (dispatch_trap code v m ≡ ok m')
      × IsTrapped code m m'
      × (reg m' Reg.stval ≡ reg m Reg.stval)
      × (reg m' Reg.pc ≡ vector (reg m Reg.stvec) code)
dispatch_trap-interrupt code v m hc hs mode = (
  interrupted_to m code,
  interrupt_eq code v m hc hs mode,
  record { cause = refl; interrupted = refl; mode = refl; others = λ i a b c d. ground arith },
  refl,
  refl,
)

-- In a reserved mode of STVEC an interrupt aborts the process.
pub dispatch_trap-reserved :
    {W : Type 0} (code v : ℕ) (m : Machine W)
    → 2 ^ 31 ≤ code
    → 2 ≤ reg m Reg.stvec % 4
    → dispatch_trap code v m ≡ stop aborts
unfolding dispatch_trap
dispatch_trap-reserved code v m hc mode = ground (arith, stvec_mode_lem (reg m Reg.stvec))

-- No interrupt is taken between LR and SC, in supervisor mode with interrupts disabled, or with none
-- that is enabled and pending: the state is as it was.
pub check_interrupts_quiet :
    {W : Type 0} (m : Machine W)
    → (m.core.ll_sc_flag ≡ true)
      ⊎ (is_masked m ≡ true)
      ⊎ (external_pending m ≡ false) × (software_pending m ≡ false) × (timer_pending m ≡ false)
    → check_interrupts m ≡ ok m
unfolding check_interrupts
check_interrupts_quiet m (inl flag) = rw flag
check_interrupts_quiet m (inr (inl masked)) = elim (Bool-cases m.core.ll_sc_flag) [
  | inl flag ↦ rw flag
  | inr free ↦ rw (free, masked)
]
check_interrupts_quiet m (inr (inr (e, s, t))) = elim (Bool-cases m.core.ll_sc_flag) [
  | inl flag ↦ rw flag
  | inr free ↦ elim (Bool-cases (is_masked m)) [
    | inl masked ↦ rw (free, masked)
    | inr open_ ↦ rw (free, open_, e, s, t)
  ]
]

if-true : {A : Type 0} {b : Bool} (x y : A) → b ≡ true → (if b then x else y) ≡ x
if-true x y h = rw h

if-false : {A : Type 0} {b : Bool} (x y : A) → b ≡ false → (if b then x else y) ≡ y
if-false x y h = rw h

-- What `check_interrupts` goes on with after each source.
abbrev after_software : {W : Type 0} → Machine W → Outcome (Machine W)
after_software m = trap_if (timer_pending m) supervisor_timer_interrupt m

abbrev after_external : {W : Type 0} → Machine W → Outcome (Machine W)
after_external m = trap_if (software_pending m) supervisor_software_interrupt m >>= after_software

-- An external and a software interrupt that are both pending are both taken in one check, since
-- taking the first disables nothing: the core goes to the vector of the software interrupt, and the
-- address to return to is the vector of the external one.
pub check_interrupts-nested :
    {W : Type 0} (m : Machine W)
    → m.core.ll_sc_flag ≡ false
    → is_masked m ≡ false
    → external_pending m ≡ true
    → software_pending m ≡ true
    → timer_pending m ≡ false
    → reg m Reg.stvec < 2 ^ 32
    → reg m Reg.stvec % 4 < 2
    → (m' : Machine W) × (check_interrupts m ≡ ok m')
      × (reg m' Reg.scause ≡ supervisor_software_interrupt)
      × (reg m' Reg.pc ≡ vector (reg m Reg.stvec) supervisor_software_interrupt)
      × (reg m' Reg.sepc ≡ vector (reg m Reg.stvec) supervisor_external_interrupt)
unfolding check_interrupts
check_interrupts-nested m free open_ e s t hs mode =
    let m1 = interrupted_to m supervisor_external_interrupt in
    let m2 = interrupted_to m1 supervisor_software_interrupt in
    (
      m2,
      if-false _ _ free
          ∙ (if-false _ _ open_
              ∙ (ap (λ r. r >>= after_external)
                    (if-true _ _ e
                      ∙ interrupt_eq supervisor_external_interrupt 0 m (omega arith) hs mode)
                  ∙ (ap (λ r. r >>= after_software)
                        (if-true _ _ s
                          ∙ interrupt_eq supervisor_software_interrupt 0 m1 (omega arith) hs mode)
                      ∙ if-false _ _ t))),
      refl,
      refl,
      refl,
    )
