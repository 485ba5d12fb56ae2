-- ===== src/Sdl/Frame.antt =====
-- What `sdl_write_fb` leaves in the frame buffer.
use switch_v.Common.{ℕ, zero, suc, ◌+◌, ◌*◌, ◌<◌, ◌≤◌, ◌≡◌, fun_ext, arith, true, false, ◌&&◌}
use switch_v.Common.{ap, some, ltb, leb, ◌==◌, if◌then◌else◌, update}
use switch_v.Common.Int.{pos}
use switch_v.Common.Outcome.{ok}
use switch_v.Memory.{Memory}
use switch_v.Sdl.{Display, fb_line, fb_lines, sdl_write_fb}

-- The pixels of a range, each with the colour that its byte selects, and the rest as it was.
abbrev pub painted : (ℕ → ℕ) → Memory → ℕ → ℕ → ℕ → (ℕ → ℕ) → ℕ → ℕ
painted palette m pix_idx from n fb j =
    if leb from j && ltb j (from + n) then palette (m.cell (pix_idx + j)) else fb j

leb-true : (a b : ℕ) → a ≤ b → leb a b ≡ true
leb-true a b h = ground arith

ltb-true : (a b : ℕ) → a < b → ltb a b ≡ true
ltb-true a b h = ground arith

painted-suc :
    (palette : ℕ → ℕ) (m : Memory) (pix_idx from n : ℕ) (fb : ℕ → ℕ)
    → update
        (painted palette m pix_idx from n fb)
        (from + n)
        (palette (m.cell (pix_idx + (from + n))))
      ≡ painted palette m pix_idx from (suc n) fb
painted-suc palette m pix_idx from n fb = fun_ext λ j. ground arith

fb_line_lem :
    (palette : ℕ → ℕ) (size : ℕ) (m : Memory) (pix_idx from n : ℕ) (fb : ℕ → ℕ)
    → pix_idx + (from + n) ≤ m.size
    → ((j : ℕ) → j < from + n → m.cell (pix_idx + j) < size)
    → fb_line palette size m pix_idx from n fb ≡ ok (painted palette m pix_idx from n fb)
unfolding fb_line
fb_line_lem palette size m pix_idx from zero fb h k = ap ok (fun_ext λ j. ground arith)
fb_line_lem palette size m pix_idx from (suc n) fb h k =
    rw
      (
        (fb_line_lem palette size m pix_idx from n fb (omega arith) (λ j l. k j (omega arith))),
        (leb-true (pix_idx + (from + n) + 1) m.size (omega arith)),
        (ltb-true (m.cell (pix_idx + (from + n))) size (k (from + n) (omega arith))),
      )
      (ap ok (painted-suc palette m pix_idx from n fb))

painted-line :
    (palette : ℕ → ℕ) (m : Memory) (pix_idx from n : ℕ) (fb : ℕ → ℕ)
    → painted palette m pix_idx from n (painted palette m pix_idx 0 from fb)
      ≡ painted palette m pix_idx 0 (from + n) fb
painted-line palette m pix_idx from n fb = fun_ext λ j. ground arith

fb_lines_lem :
    (palette : ℕ → ℕ) (size : ℕ) (m : Memory) (pix_idx width n : ℕ) (fb : ℕ → ℕ)
    → pix_idx + n * width ≤ m.size
    → ((j : ℕ) → j < n * width → m.cell (pix_idx + j) < size)
    → fb_lines palette size m pix_idx width n fb ≡ ok (painted palette m pix_idx 0 (n * width) fb)
unfolding fb_lines
fb_lines_lem palette size m pix_idx width zero fb h k = ap ok (fun_ext λ j. ground arith)
fb_lines_lem palette size m pix_idx width (suc n) fb h k =
    rw
      (
        (fb_lines_lem palette size m pix_idx width n fb (omega arith) (λ j l. k j (omega arith))),
        (fb_line_lem palette size m pix_idx (n * width) width
            (painted palette m pix_idx 0 (n * width) fb) (omega arith) (λ j l. k j (omega arith))),
        (painted-line palette m pix_idx (n * width) width fb),
      )
      (ap (λ x. ok (painted palette m pix_idx 0 x fb)) (omega arith))

-- With a window, a palette and a picture of one byte to a pixel that lies in the memory and uses
-- the palette's colours only, the frame buffer gets the colour of every pixel, nothing else of it
-- or of the other statics changes, and the call gives 0.
pub sdl_write_fb_lem :
    (m : Memory) (pix_idx : ℕ) (s : Display) (palette fb : ℕ → ℕ)
    → s.palette ≡ some palette
    → s.frame_buffer ≡ some fb
    → s.texture ≡ true
    → 0 < s.width
    → 0 < s.height
    → pix_idx + s.height * s.width ≤ m.size
    → ((j : ℕ) → j < s.height * s.width → m.cell (pix_idx + j) < s.palette_size)
    → sdl_write_fb m pix_idx s
      ≡ ok (
        pos 0,
        record s {
          frame_buffer =
              some
                (λ j. if ltb j (s.height * s.width) then palette (m.cell (pix_idx + j)) else fb j);
        },
      )
unfolding sdl_write_fb
sdl_write_fb_lem m pix_idx s palette fb p f t w h inside colours =
    rw
      (
        p,
        f,
        t,
        (positive s.width w),
        (positive s.height h),
        (fb_lines_lem palette s.palette_size m pix_idx s.width s.height fb inside colours),
      )
      (ap
        (λ (g : ℕ → ℕ).
          ok (pos 0, record s { palette = some palette; frame_buffer = some g; texture = true }))
        (fun_ext λ j. ground arith))
  where
    positive : (n : ℕ) → 0 < n → (n == 0) ≡ false
    positive n l = ground arith
