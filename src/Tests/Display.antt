-- ===== src/Tests/Display.antt =====
-- A window of four by two pixels, and a ring of four events.
use switch_v.Common.{
  ℕ, ◌+◌, ◌^◌, ◌≡◌, ◌≤◌, refl, true, some, List, [], ◌∷◌, ltb, if◌then◌else◌, arith,
}
use switch_v.Common.Int.{pos}
use switch_v.Common.Outcome.{ok}
use switch_v.Sdl.{SdlLib, SdlEvent, Display, sdl_write_fb, sdl_pull_events}
use switch_v.Sdl.Frame.{sdl_write_fb_lem}
use switch_v.Sdl.Events.{place, room}
use switch_v.Sdl.Ring.{sdl_pull_events_lem}
use switch_v.Memory.{Memory, mem_rw}
use switch_v.Memory.Laws.{with_word, mem_rw-with_word}
use switch_v.Tests.Data.{blank}

abbrev pub window : Display
window = record {
  palette = some (λ i. i + 5);
  palette_size = 1;
  frame_buffer = some (λ _. 0);
  texture = true;
  width = 4;
  height = 2;
  event_buff_size = 4;
  event_buff_size_mask = 3;
  queue = [];
}

sdl_write_fb_lem_example :
    sdl_write_fb blank 8 window
    ≡ ok (
      pos 0,
      record window { frame_buffer = some (λ j. if ltb j 8 then blank.cell (8 + j) + 5 else 0) },
    )
sdl_write_fb_lem_example =
    sdl_write_fb_lem blank 8 window (λ i. i + 5) (λ _. 0) refl refl refl (omega arith) (omega arith)
      (omega arith) (λ j l. omega arith)

abbrev pub lib : SdlLib
lib = record {
  keydown = 768;
  keyup = 769;
  mousemotion = 1024;
  mousebuttondown = 1025;
  mousebuttonup = 1026;
  event_size = 4;
}

abbrev keys : List SdlEvent
keys =
    record { kind = 768; bytes = 1 ∷ 2 ∷ 3 ∷ 4 ∷ [] }
    ∷ record { kind = 5; bytes = [] }
    ∷ record { kind = 769; bytes = 5 ∷ 6 ∷ 7 ∷ 8 ∷ [] }
    ∷ []

-- The guest's memory, with the head 3 at 40.
abbrev ring_memory : Memory
ring_memory = with_word blank 40 3

sdl_pull_events_lem_example :
    (n : ℕ) × (m' : Memory) × (s' : Display) × (sdl_pull_events lib 16 40 2 ring_memory
        (record window { queue = keys })
      ≡ ok (n, m', s'))
    × (mem_rw m' 40 ≡ ok (place (2 ^ 2) 3 n))
    × (n ≤ room (2 ^ 2) 3 2)
sdl_pull_events_lem_example =
    sdl_pull_events_lem lib 16 40 2 2 3 ring_memory (record window { queue = keys }) (omega arith)
      refl (omega arith) (mem_rw-with_word blank 40 3 (omega arith) (omega arith)) (omega arith)
      (omega arith) (omega arith) (omega arith, (omega arith, (omega arith, tt)))
