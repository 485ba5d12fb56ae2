-- ===== src/User/Programs.antt =====
-- Programs on a USER build, whose platform layer (src/user) has no interrupts: the runs of
-- `vcore_run` against the steps that the RISC-V manual allows.
use switch_v.Common.{ℕ, ◌≡◌, refl, false}
use switch_v.Common.Outcome.{ok}
use switch_v.Cpu.State.{Machine}
use switch_v.Cpu.Run.{running, vcore_run}
use switch_v.Cpu.Invariant.{IsMachine}
use switch_v.Cpu.Isa.Hart.{Hart, hart_of}
use switch_v.Cpu.Isa.Programs.{Steps, undisturbed, vcore_run-Steps}
use switch_v.User.Host.{Host, UserWorld}
use switch_v.User.Sys.{user}
use switch_v.User.Words.{IsUserWorld, KeepsFds, user-KeepsWords}

module _ {H : Type 0} (Own : H → Type 0) (OneMore : ℕ → H → Type 0) (host : Host H)
    (laws : KeepsFds Own OneMore host) where
  -- In a USER build, a core in a well-formed state, with its exit flag clear and with no signal
  -- from another thread, runs for as many rounds whatever steps the RISC-V manual allows from its hart
  -- (each step an instruction of RV32I or M or an AMO that is in memory at the program counter then
  -- and raises no misaligned exception, no fence, system instruction, LR, SC or AMOOR; an indirect
  -- jump only with a link register that is not its base): the process goes on, the core is still running, in a well-formed state, and its
  -- hart is where the steps lead.
  pub user_run-Steps :
      (n : ℕ) (m : Machine (UserWorld H)) (h : Hart (UserWorld H))
      → IsMachine (IsUserWorld Own) m
      → m.core.atomic_exit_loop ≡ false
      → Steps n (hart_of m) h
      → (m' : Machine (UserWorld H)) × (vcore_run (user host) (undisturbed n) m ≡ ok (running m'))
        × (hart_of m' ≡ h)
        × IsMachine (IsUserWorld Own) m'
  unfolding user
  user_run-Steps n m h w flag run =
      vcore_run-Steps (IsUserWorld Own) (user host) (user-KeepsWords Own OneMore host laws)
        (λ csr other. Unit) (λ m' calm. refl) n m (hart_of m) h w flag refl tt run
