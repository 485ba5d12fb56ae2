-- ===== src/Supervisor/Words/Defs.antt =====
-- The words of every core of a SUPERVISOR build.
use switch_v.Common.{ℕ}
use switch_v.Cpu.State.{Machine}
use switch_v.Cpu.Invariant.{IsCore, IsMachine}
use switch_v.Supervisor.World.{World}

-- Every core of the array has words.
pub record IsWorld (w : World) : Type 0 where
  pub cores : (i : ℕ) → IsCore (w.cthreads i).core

abbrev pub Kept : Machine World → Type 0
Kept = IsMachine IsWorld
