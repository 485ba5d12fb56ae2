-- ===== src/Tests/Data.antt =====
-- A machine of 64 bytes with two cores, and programs of one instruction.
use switch_v.Common.{ℕ, true, update, arith}
use switch_v.Memory.{Memory}
use switch_v.Memory.Laws.{IsBytes, with_word}
use switch_v.Cpu.State.{VCore, Machine}
use switch_v.Cpu.Run.{cleared}
use switch_v.Cpu.Invariant.{IsCore, IsMachine}
use switch_v.Cthread.{Cthread, stopped, stop_s}
use switch_v.Supervisor.World.{World}
use switch_v.Supervisor.Words.{IsWorld}

abbrev pub blank : Memory
blank = record { size = 64; cell = λ _. 0 }

abbrev pub loaded_with : ℕ → Memory
loaded_with word = with_word blank 0 word

pub loaded_with-IsBytes : (word : ℕ) → IsBytes (loaded_with word)
loaded_with-IsBytes word = record { byte = λ a. ground arith }

-- A core in which registers 1 to 3 hold 100, 7 and 40.
abbrev pub three_regs : ℕ → ℕ
three_regs = update (update (update (λ _. 0) 1 100) 2 7) 3 40

abbrev pub core_with : (ℕ → ℕ) → VCore
core_with regs = record cleared { regs = regs }

-- Core 0 runs and core 1 is stopped.
abbrev pub stopped_thread : Cthread
stopped_thread = record { state = stopped; signal = stop_s; old_signal = stop_s; core = cleared }

abbrev pub two_cores : World
two_cores = record {
  ctx = record { cores = 2; debug = true; memory_size = 64 };
  self = 0;
  cthreads = λ _. stopped_thread;
}

abbrev pub machine : (ℕ → ℕ) → ℕ → Machine World
machine regs word = record { core = core_with regs; mem = loaded_with word; world = two_cores }

pub cleared-IsCore : IsCore cleared
cleared-IsCore = record { word = λ i. ground arith; kept = ground arith; brk = ground arith }

pub machine-IsMachine : (word : ℕ) → IsMachine IsWorld (machine three_regs word)
machine-IsMachine word = record {
  core = record { word = λ i. ground arith; kept = ground arith; brk = ground arith };
  bytes = loaded_with-IsBytes word;
  world = record { cores = λ i. cleared-IsCore };
}
