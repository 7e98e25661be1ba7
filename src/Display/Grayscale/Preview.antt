-- ===== src/Display/Grayscale/Preview.antt =====
-- What the pixel buffer of src/HalDisplay.cpp shows after a refresh and after a grayscale preview.
use crosspoint_simulator_ios.Base.{
  ℕ, zero, suc, ◌+◌, ◌-◌, ◌*◌, ◌/◌, ◌%◌, ◌<◌, ◌≤◌, ◌≡◌, refl, Bool, true, false, ◌&&◌, arith,
  if◌then◌else◌, ltb, leb, some,
}
use crosspoint_simulator_ios.Display.State.{
  Display, Buffer, display_height, copy_buffer, get_frame_buffer,
}
use crosspoint_simulator_ios.Display.Grayscale.{
  argb_gray, get_bit, fill_line, fill_lines, bw_pixel, render_bw_pixels, snapshot_bw_base,
  gray_level, preview_pixel, compose_grayscale_preview, refresh_display,
}

fill_line-at :
    (f : ℕ → ℕ → ℕ) (y n i : ℕ) (px : ℕ → ℕ)
    → fill_line f y n px i
      ≡ (if leb (y * 800) i && ltb i (y * 800 + n) then f (i - y * 800) y else px i)
unfolding fill_line
fill_line-at f y zero i px = ground arith
fill_line-at f y (suc n) i px = ground (arith, fill_line-at f y n i px)

-- The two loops write each pixel of the panel once, and nothing else.
pub fill_lines-at :
    (f : ℕ → ℕ → ℕ) (m i : ℕ) (px : ℕ → ℕ)
    → fill_lines f m px i ≡ (if ltb i (m * 800) then f (i % 800) (i / 800) else px i)
unfolding fill_lines
fill_lines-at f zero i px = ground arith
fill_lines-at f (suc m) i px =
    ground (arith, fill_lines-at f m i px, fill_line-at f m 800 i (fill_lines f m px), here)
  where
    here : m * 800 ≤ i → i < m * 800 + 800 → f (i - m * 800) m ≡ f (i % 800) (i / 800)
    here p q =
        let a : i - m * 800 ≡ i % 800 = omega arith in
        let b : m ≡ i / 800 = omega arith in λ j. f (a j) (b j)

get_bit-copy_buffer :
    (fb old : Buffer) (x y : ℕ)
    → x < 800
    → y < 480
    → get_bit (copy_buffer fb old) x y ≡ get_bit fb x y
unfolding get_bit
get_bit-copy_buffer fb old x y hx hy = ground arith

preview_pixel-bw :
    (inverted : Bool) (fb : Buffer) (d : Display) (x y : ℕ)
    → x < 800
    → y < 480
    → let s = snapshot_bw_base fb d.preview in
      preview_pixel inverted s.bw_base s x y ≡ bw_pixel inverted fb x y
unfolding snapshot_bw_base argb_gray gray_level
preview_pixel-bw inverted fb d x y hx hy =
    ground (arith, get_bit-copy_buffer fb d.preview.bw_base x y hx hy)

-- A refresh of a frame buffer that is not lent, followed by a grayscale preview with no planes
-- uploaded, leaves every pixel as the refresh drew it, in both polarities.
pub preview_after_refresh :
    (d : Display) (i : ℕ)
    → d.lent ≡ false
    → (e : Display) × (e' : Display) × (refresh_display d ≡ some e)
      × (compose_grayscale_preview e ≡ some e')
      × (e'.pixels i ≡ e.pixels i)
unfolding refresh_display compose_grayscale_preview get_frame_buffer render_bw_pixels
preview_after_refresh d i free =
    let s = snapshot_bw_base d.frame_buffer d.preview in
    let f = preview_pixel d.inverted s.bw_base s in
    let g = bw_pixel d.inverted d.frame_buffer in
    let px = fill_lines g display_height d.pixels in
    (
      render_bw_pixels d.frame_buffer (record d { preview = s }),
      record d { preview = s; pixels = fill_lines f display_height px; pending_present = true },
      rw free,
      unfold snapshot_bw_base in refl,
      ground (
        arith,
        fill_lines-at f 480 i px,
        fill_lines-at g 480 i d.pixels,
        preview_pixel-bw d.inverted d.frame_buffer d (i % 800) (i / 800),
      ),
    )
