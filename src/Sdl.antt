-- ===== src/Sdl.antt =====
-- The window that a USER program draws in, src/sdl.c and src/sdl.h. The SDL library is not the
-- program's: what it answers is a parameter (`SdlStart`, `SdlLib`), and calls of it that only draw
-- or destroy are left out. The statics of the file are a record. A pointer of the guest is an
-- address here, and the code's tests of such pointers against NULL are never met.
use switch_v.Common.{ℕ, zero, suc, ◌+◌, ◌-◌, ◌*◌, ◌^◌, bit_and, Bool, true, false, not, ◌&&◌, ◌||◌}
use switch_v.Common.{Option, none, some, List, [], ◌∷◌, ltb, leb, ◌==◌, if◌then◌else◌, update}
use switch_v.Common.Int.{ℤ, pos, negsuc}
use switch_v.Common.Word.{u32}
use switch_v.Common.Outcome.{Outcome, ok, stop, exits, undefined, ◌>>=◌}
use switch_v.Memory.{Memory, in_map, mem_rw, mem_ww, mem_wb_ptr_s}
pub mod Frame
pub mod Events
pub mod Ring

-- `sdl_err`, by its numbers. A success is 0 too.
abbrev pub buff_sz_pow_of_2 : ℕ
buff_sz_pow_of_2 = 0

abbrev pub not_pos_h : ℕ
not_pos_h = 1

abbrev pub not_pos_w : ℕ
not_pos_w = 2

abbrev pub buff_sz_zero : ℕ
buff_sz_zero = 3

-- Whether each call that `sdl_init` makes succeeds, and what the new frame buffer holds.
pub record SdlStart : Type 0 where
  pub starts : Bool
  pub window : Bool
  pub renderer : Bool
  pub texture : Bool
  pub allocates : Bool
  pub mouse : Bool
  pub fresh : ℕ → ℕ

-- The constants of the library that `sdl_pull_events` uses, and the size of an `SDL_Event`.
pub record SdlLib : Type 0 where
  pub keydown : ℕ
  pub keyup : ℕ
  pub mousemotion : ℕ
  pub mousebuttondown : ℕ
  pub mousebuttonup : ℕ
  pub event_size : ℕ

pub record SdlEvent : Type 0 where
  pub kind : ℕ
  pub bytes : List ℕ

-- `queue` is what the library still has to poll.
pub record Display : Type 0 where
  pub palette : Option (ℕ → ℕ)
  pub palette_size : ℕ
  pub frame_buffer : Option (ℕ → ℕ)
  pub texture : Bool
  pub width : ℕ
  pub height : ℕ
  pub event_buff_size : ℕ
  pub event_buff_size_mask : ℕ
  pub queue : List SdlEvent

-- `w <= 0` of an `int`.
abbrev pub is_positive : ℤ → Bool
is_positive (pos zero) = false
is_positive (pos (suc n)) = true
is_positive (negsuc n) = false

abbrev pub magnitude_of : ℤ → ℕ
magnitude_of (pos n) = n
magnitude_of (negsuc n) = 0

abbrev pub all_started : SdlStart → Bool
all_started s = s.window && s.renderer && s.texture && s.allocates && s.mouse

-- The error or 0, and the statics.
unfoldable pub sdl_init : SdlStart → ℤ → ℤ → ℕ → Display → Outcome (ℕ × Display)
sdl_init start w h ev_buff_sz s =
    if ev_buff_sz == 0
    then ok (buff_sz_zero, s)
    else if not (bit_and ev_buff_sz (ev_buff_sz - 1) == 0)
    then ok (buff_sz_pow_of_2, s)
    else if not (is_positive w)
    then ok (not_pos_w, s)
    else if not (is_positive h)
    then ok (not_pos_h, s)
    else if not start.starts
    then stop (exits 1)
    else if not (all_started start)
    then stop (exits 1)
    else ok (
      0,
      record s {
        texture = true;
        frame_buffer = some start.fresh;
        width = magnitude_of w;
        height = magnitude_of h;
        event_buff_size = ev_buff_sz;
        event_buff_size_mask = ev_buff_sz - 1;
      },
    )

-- The word at an index of an array of the guest.
abbrev pub word_of : Memory → ℕ → ℕ → ℕ
word_of m p i =
    m.cell (p + 4 * i)
    + m.cell (p + 4 * i + 1) * 2 ^ 8
    + m.cell (p + 4 * i + 2) * 2 ^ 16
    + m.cell (p + 4 * i + 3) * 2 ^ 24

-- Whether the palette needs memory: there is none, or it has another size.
abbrev pub needs_memory : Display → ℕ → Bool
needs_memory s p_size = elim s.palette [ none ↦ true | some f ↦ not (p_size == s.palette_size) ]

-- `allocates`: `malloc` or `realloc` gives memory.
unfoldable pub sdl_write_palette : Bool → Memory → ℕ → ℕ → Display → Outcome Display
sdl_write_palette allocates m p p_size s =
    if p_size == 0
    then ok s
    else if needs_memory s p_size && not allocates
    then stop (exits 1)
    else in_map m p (4 * p_size) (record s { palette = some (word_of m p); palette_size = p_size })

-- The inner loop, of a line that starts at `from`: a pixel's byte selects a colour of the palette.
-- A byte beyond the palette is read outside of it.
unfoldable pub fb_line : (ℕ → ℕ) → ℕ → Memory → ℕ → ℕ → ℕ → (ℕ → ℕ) → Outcome (ℕ → ℕ)
fb_line palette size m pix_idx from zero fb = ok fb
fb_line palette size m pix_idx from (suc n) fb = do
  done ← fb_line palette size m pix_idx from n fb
  i ← in_map m (pix_idx + (from + n)) 1 (m.cell (pix_idx + (from + n)))
  if ltb i size then ok (update done (from + n) (palette i)) else stop undefined

-- The outer loop.
unfoldable pub fb_lines : (ℕ → ℕ) → ℕ → Memory → ℕ → ℕ → ℕ → (ℕ → ℕ) → Outcome (ℕ → ℕ)
fb_lines palette size m pix_idx width zero fb = ok fb
fb_lines palette size m pix_idx width (suc y) fb = do
  done ← fb_lines palette size m pix_idx width y fb
  fb_line palette size m pix_idx (y * width) width done

abbrev pub drawn : Memory → ℕ → Display → Option (ℕ → ℕ) → Option (ℕ → ℕ) → Outcome (ℤ × Display)
drawn m pix_idx s (some palette) (some fb) =
    if not s.texture || s.width == 0 || s.height == 0
    then ok (negsuc 0, s)
    else (fb_lines palette s.palette_size m pix_idx s.width s.height fb >>= λ fb'.
        ok (pos 0, record s { frame_buffer = some fb' }))
drawn m pix_idx s _ _ = ok (negsuc 0, s)

-- 0, or -1 if there is no palette or no window.
unfoldable pub sdl_write_fb : Memory → ℕ → Display → Outcome (ℤ × Display)
sdl_write_fb m pix_idx s = drawn m pix_idx s s.palette s.frame_buffer

unfoldable pub sdl_shutdown : {A : Type 0} → Outcome A
sdl_shutdown = stop (exits 0)

unfoldable pub is_input : SdlLib → SdlEvent → Bool
is_input lib e =
    e.kind == lib.keydown
    || e.kind == lib.keyup
    || e.kind == lib.mousemotion
    || e.kind == lib.mousebuttondown
    || e.kind == lib.mousebuttonup

abbrev pub next_idx : ℕ → ℕ → ℕ
next_idx mask idx = bit_and (u32 (idx + 1)) mask

-- Where the loop of `sdl_pull_events` ends: the memory, the index, the count, and what is left in
-- the queue.
pub record Pulled : Type 0 where
  pub mem : Memory
  pub idx : ℕ
  pub count : ℕ
  pub queue : List SdlEvent

-- The loop. The event is polled before the test for room, so with no room it is gone.
unfoldable pub pull_loop : SdlLib → ℕ → ℕ → ℕ → List SdlEvent → Memory → ℕ → ℕ → Outcome Pulled
pull_loop lib events mask tail [] m idx i =
    ok (record { mem = m; idx = idx; count = i; queue = [] })
pull_loop lib events mask tail (e ∷ rest) m idx i =
    let go_on = λ (m' : Memory) (idx' i' : ℕ). pull_loop lib events mask tail rest m' idx' i' in
    if next_idx mask idx == tail
    then ok (record { mem = m; idx = idx; count = i; queue = rest })
    else if is_input lib e
    then (mem_wb_ptr_s m (events + idx * lib.event_size) e.bytes >>= λ m'.
        go_on m' (next_idx mask idx) (i + 1))
    else go_on m idx i

-- The count, with the memory and the statics.
unfoldable pub sdl_pull_events :
    SdlLib → ℕ → ℕ → ℕ → Memory → Display → Outcome (ℕ × Memory × Display)
sdl_pull_events lib events head tail m s = do
  idx ← mem_rw m head
  p ← pull_loop lib events s.event_buff_size_mask tail s.queue m idx 0
  m' ← mem_ww p.mem head p.idx
  ok (p.count, m', record s { queue = p.queue })
