-- ===== src/User/Words/Kept.antt =====
-- What the system calls of a USER build keep: words are words, and the host has what the emulator has of
-- its own there.
use switch_v.Common.{arith}
use switch_v.Common.{Bool, true, false, if◌then◌else◌}
use switch_v.Common.Int.{ℤ}
use switch_v.Common.Word.{to_u32}
use switch_v.Common.Outcome.{Outcome, Holds, Holds-intro, Holds->>=, ◌>>=◌}
use switch_v.Memory.{Memory}
use switch_v.Memory.Laws.{IsBytes}
use switch_v.Cpu.Reg
use switch_v.Cpu.State.{Machine, write}
use switch_v.Cpu.Invariant.{IsMachine, write-IsMachine}
use switch_v.Supervisor.Words.{IsWorld}
use switch_v.User.Host.{UserWorld}
use switch_v.User.Emu.{failed, result, set_mem}
use switch_v.User.Words.Copies.{to_u32-lt}

-- The words of every core, and what the emulator has on the host, in the state of a USER build.
pub record IsUserWorld {H : Type 0} (Own : H → Type 0) (w : UserWorld H) : Type 0 where
  pub shared : IsWorld w.shared
  pub own : Own w.host

module _ {H : Type 0} (Own : H → Type 0) where
  abbrev pub Kept : Machine (UserWorld H) → Type 0
  Kept = IsMachine (IsUserWorld Own)

  pub result-Kept :
      (m : Machine (UserWorld H)) (r : ℤ) (h : H) → Kept m → Own h → Kept (result m r h)
  result-Kept m r h w o =
      let w' = write-IsMachine (IsUserWorld Own) m Reg.a0 (to_u32 r) w (to_u32-lt r) in
      record {
        core = w'.core;
        bytes = w'.bytes;
        world = record { shared = w.world.shared; own = o };
      }

  pub set_mem-Kept :
      (m : Machine (UserWorld H)) (mem : Memory) → Kept m → IsBytes mem → Kept (set_mem m mem)
  set_mem-Kept m mem w b = record { core = w.core; bytes = b; world = w.world }

  pub choose-Kept :
      (b : Bool) (x y : Machine (UserWorld H)) → Kept x → Kept y → Kept (if b then x else y)
  choose-Kept true x y h k = h
  choose-Kept false x y h k = k

  -- What follows a value that says nothing of the state.
  pub after :
      {A : Type 0} (r : Outcome A) (f : A → Outcome (Machine (UserWorld H)))
      → ((a : A) → Holds Kept (f a))
      → Holds Kept (r >>= f)
  after {A} r f k =
      Holds->>= (λ (a : A). Unit {0}) Kept r f (Holds-intro _ r (λ a e. tt)) (λ a u. k a)

  pub refused : (m : Machine (UserWorld H)) → Kept m → Kept (write m Reg.a0 failed)
  refused m w = write-IsMachine (IsUserWorld Own) m Reg.a0 failed w (omega arith)
