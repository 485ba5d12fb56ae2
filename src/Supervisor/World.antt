-- ===== src/Supervisor/World.antt =====
-- What a core of a SUPERVISOR build shares with the others: the context and the array of threads.
-- The machine holds the registers of the core that runs; the slot of that core in the array is
-- `self`, and the two are one object in the program. An operation on the array is therefore run
-- between `give_back` and `take_out`.
use switch_v.Common.{ℕ, update}
use switch_v.Cpu.State.{Machine}
use switch_v.ThreadsMgr.{Ctx, Cthreads}

pub record World : Type 0 where
  pub ctx : Ctx
  pub self : ℕ
  pub cthreads : Cthreads

abbrev pub give_back : Machine World → Cthreads
give_back m =
    let w = m.world in update w.cthreads w.self (record (w.cthreads w.self) { core = m.core })

abbrev pub take_out : Machine World → Cthreads → Machine World
take_out m ts = record m { core = (ts m.world.self).core; world = record m.world { cthreads = ts } }

abbrev pub on_threads : Machine World → (Cthreads → Cthreads) → Machine World
on_threads m op = take_out m (op (give_back m))
