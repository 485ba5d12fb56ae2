-- ===== src/Sdl/Ring.antt =====
-- `sdl_pull_events` on a ring of the guest's that lies in its memory.
use switch_v.Common.{ℕ, ◌+◌, ◌-◌, ◌*◌, ◌^◌, ◌<◌, ◌≤◌, ◌≡◌, refl, arith, true}
use switch_v.Common.{List, [], ◌∷◌, leb, ◌==◌, Bool-cases, inl, inr}
use native.Mathlib.Nat.{pow-le-pow_right, mul-le-mul_right}
use switch_v.Common.Outcome.{ok, Holds_elim}
use switch_v.Memory.{Memory, length, write_bytes, mem_rw, mem_wb_ptr_s}
use switch_v.Memory.Laws.{with_word, mem_ww-mapped, mem_rw-with_word}
use switch_v.Sdl.{SdlLib, SdlEvent, Display, is_input, next_idx, Pulled, pull_loop, sdl_pull_events}
use switch_v.Sdl.Events.{place, room, IsStep, pow_IsStep, pull_loop_lem}

-- No event is longer than a place of the ring.
abbrev pub AllFit : ℕ → List SdlEvent → Type 0
AllFit n [] = Unit
AllFit n (e ∷ es) = (length e.bytes ≤ n) × AllFit n es

module _ (lib : SdlLib) (events mask size tail : ℕ) (step : IsStep size mask) where
  abbrev stored_at : Memory → ℕ → SdlEvent → Memory
  stored_at m idx e = record m { cell = write_bytes m.cell (events + idx * lib.event_size) e.bytes }

  stored_at_lem :
      (m : Memory) (idx : ℕ) (e : SdlEvent)
      → idx < size
      → events + size * lib.event_size ≤ m.size
      → length e.bytes ≤ lib.event_size
      → mem_wb_ptr_s m (events + idx * lib.event_size) e.bytes ≡ ok (stored_at m idx e)
  unfolding mem_wb_ptr_s
  stored_at_lem m idx e h inside fits =
      let below : (idx + 1) * lib.event_size ≤ size * lib.event_size =
        mul-le-mul_right {m = idx + 1} {n = size} lib.event_size (omega arith) in
      let mapped : leb (events + idx * lib.event_size + length e.bytes) m.size ≡ true =
        ground arith in
      rw mapped

  pull_loop-Returns :
      (queue : List SdlEvent) (m : Memory) (idx i : ℕ)
      → idx < size
      → events + size * lib.event_size ≤ m.size
      → AllFit lib.event_size queue
      → (p : Pulled) × (pull_loop lib events mask tail queue m idx i ≡ ok p) × (p.mem.size ≡ m.size)
  unfolding pull_loop
  pull_loop-Returns [] m idx i h inside fits =
      (record { mem = m; idx = idx; count = i; queue = [] }, refl, refl)
  pull_loop-Returns (e ∷ rest) m idx i h inside (fit, fits) =
      elim (Bool-cases (next_idx mask idx == tail)) [
        | inl full ↦ (record { mem = m; idx = idx; count = i; queue = rest }, rw full, refl)
        | inr free ↦ elim (Bool-cases (is_input lib e)) [
          | inl input ↦
              let within : next_idx mask idx < size = rw (step idx h) (ground arith) in
              let after =
                pull_loop-Returns rest (stored_at m idx e) (next_idx mask idx) (i + 1) within inside
                  fits in
              (after.0, rw (free, input, stored_at_lem m idx e h inside fit) after.1, after.2)
          | inr other ↦
              let after = pull_loop-Returns rest m idx i h inside fits in
              (after.0, rw (free, other) after.1, after.2)
        ]
      ]

-- With a ring of 2 ^ k places, k below 32, in the mapped memory, its head and the given tail inside
-- of it, and no event longer than a place, `sdl_pull_events` returns: the head that the guest then
-- reads has moved on by as many places as the result counts, round the end of the ring, and by no
-- more than were free, so it never meets the tail.
pub sdl_pull_events_lem :
    (lib : SdlLib) (events head k tail idx : ℕ) (m : Memory) (s : Display)
    → k < 32
    → s.event_buff_size_mask ≡ 2 ^ k - 1
    → tail < 2 ^ k
    → mem_rw m head ≡ ok idx
    → idx < 2 ^ k
    → head + 4 ≤ m.size
    → events + 2 ^ k * lib.event_size ≤ m.size
    → AllFit lib.event_size s.queue
    → (n : ℕ) × (m' : Memory) × (s' : Display) × (sdl_pull_events lib events head tail m s
        ≡ ok (n, m', s'))
      × (mem_rw m' head ≡ ok (place (2 ^ k) idx n))
      × (n ≤ room (2 ^ k) idx tail)
unfolding sdl_pull_events
sdl_pull_events_lem lib events head k tail idx m s bits mask tail_in at idx_in word inside fits =
    let (p, done, size) =
      pull_loop-Returns lib events (2 ^ k - 1) (2 ^ k) tail (pow_IsStep k bits) s.queue m idx 0
        idx_in inside fits in
    let (moved, few) =
      Holds_elim _ _ p (pull_loop_lem lib events k tail s.queue m idx bits tail_in idx_in) done in
    let below : 2 ^ k ≤ 2 ^ 31 =
      pow-le-pow_right {n = 2} (omega arith) {i = k} {j = 31} (omega arith) in
    let small : p.idx < 2 ^ 32 = rw moved (ground arith) in
    (
      p.count,
      with_word p.mem head p.idx,
      record s { queue = p.queue },
      rw (at, mask, done, mem_ww-mapped p.mem head p.idx (omega arith)),
      rw (← moved) (mem_rw-with_word p.mem head p.idx small (omega arith)),
      few,
    )
