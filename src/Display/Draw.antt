-- ===== src/Display/Draw.antt =====
-- `drawImage` and `drawImageTransparent` of src/HalDisplay.cpp. They differ in the operation that
-- combines a byte of the frame buffer with one of the image.
pub mod Region
use crosspoint_simulator_ios.Base.{
  ℕ, zero, suc, ◌+◌, ◌*◌, ◌/◌, Bool, ◌&&◌, if◌then◌else◌, leb, ltb, update, Option, none, some,
  bit_and,
}
use crosspoint_simulator_ios.Base.Words.{u16}
use crosspoint_simulator_ios.Display.State.{Display, Buffer, display_height, display_width_bytes}

-- Whether the loops write at all: the first row and the first column are on the panel.
abbrev pub writes : (x y w h : ℕ) → Bool
writes x y w h = ltb 0 h && ltb y display_height && ltb 0 (w / 8) && ltb (x / 8) display_width_bytes

module _ (op : ℕ → ℕ → ℕ) (image : Buffer) where
  -- The loop over `col`, with `n` rounds left.
  unfoldable pub draw_row : ℕ → ℕ → ℕ → ℕ → ℕ → Buffer → Buffer
  draw_row x8 dest src zero col fb = fb
  draw_row x8 dest src (suc n) col fb =
      let rest =
        draw_row x8 dest src n (col + 1)
          (update fb (dest + col) (op (fb (dest + col)) (image (src + col)))) in
      if leb display_width_bytes (x8 + col) then fb else rest

  -- The loop over `row`, with `n` rounds left. The offsets are `uint16_t`.
  unfoldable pub draw_rows : ℕ → ℕ → ℕ → ℕ → ℕ → Buffer → Buffer
  draw_rows x y w8 zero row fb = fb
  draw_rows x y w8 (suc n) row fb =
      let dest_y = u16 (y + row) in
      let rest =
        draw_rows x y w8 n (row + 1) (
          draw_row (x / 8) (u16 (dest_y * display_width_bytes + x / 8)) (u16 (row * w8)) w8 0 fb) in
      if leb display_height dest_y then fb else rest

  draw : ℕ → ℕ → ℕ → ℕ → Display → Option Display
  draw x y w h d =
      if d.lent && writes x y w h
      then none
      else some (record d { frame_buffer = draw_rows x y (w / 8) h 0 d.frame_buffer })

-- `none` where the source writes through the null pointer of a lent frame buffer.
unfoldable pub draw_image : Buffer → ℕ → ℕ → ℕ → ℕ → Display → Option Display
unfolding draw
draw_image image x y w h d = draw (λ old new. new) image x y w h d

unfoldable pub draw_image_transparent : Buffer → ℕ → ℕ → ℕ → ℕ → Display → Option Display
unfolding draw
draw_image_transparent image x y w h d = draw bit_and image x y w h d
