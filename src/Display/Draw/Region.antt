-- ===== src/Display/Draw/Region.antt =====
-- The bytes of the frame buffer that the drawing loops of src/HalDisplay.cpp write.
use crosspoint_simulator_ios.Base.{
  ℕ, zero, suc, ◌+◌, ◌-◌, ◌*◌, ◌/◌, ◌%◌, ◌<◌, ◌≤◌, ◌≡◌, refl, Bool, false, ◌&&◌, arith,
  if◌then◌else◌, leb, ltb, update, Bool-cases, inl, inr, some, bit_and,
}
use crosspoint_simulator_ios.Base.Words.{u16}
use crosspoint_simulator_ios.Display.State.{
  Display, Buffer, display_height, display_width_bytes, buffer_size,
}
use crosspoint_simulator_ios.Display.Draw.{draw_row, draw_rows, draw_image, draw_image_transparent}

module _ (op : ℕ → ℕ → ℕ) (image : Buffer) where
  -- A row writes the columns from `col` on that are left of the panel's right edge.
  draw_row-at :
      (x8 dest src n col p : ℕ) (fb : Buffer)
      → draw_row op image x8 dest src n col fb p ≡ (
          if leb (dest + col) p
            && (ltb p (dest + (col + n)) && ltb (x8 + (p - dest)) display_width_bytes)
          then op (fb p) (image (src + (p - dest)))
          else fb p)
  unfolding draw_row
  draw_row-at x8 dest src zero col p fb = ground arith
  draw_row-at x8 dest src (suc n) col p fb =
      let fb' = update fb (dest + col) (op (fb (dest + col)) (image (src + col))) in
      ground (arith, draw_row-at x8 dest src n (col + 1) p fb')

  -- Whether byte `p` of the frame buffer lies in the rectangle, and the image's byte for it.
  abbrev pub inside : ℕ → ℕ → ℕ → ℕ → ℕ → Bool
  inside x8 y w8 h p =
      (leb y (p / display_width_bytes) && ltb (p / display_width_bytes) (y + h))
      && (leb x8 (p % display_width_bytes) && ltb (p % display_width_bytes) (x8 + w8))

  abbrev pub image_byte : ℕ → ℕ → ℕ → ℕ → ℕ
  image_byte x8 y w8 p =
      image (u16 ((p / display_width_bytes - y) * w8) + (p % display_width_bytes - x8))

  one_row-at :
      (x y w8 row p : ℕ) (fb : Buffer)
      → p < buffer_size
      → x < 65536
      → y + row < 480
      → draw_row op image
          (x / 8)
          (u16 (u16 (y + row) * display_width_bytes + x / 8))
          (u16 (row * w8))
          w8
          0
          fb
          p
        ≡ (if inside (x / 8) (y + row) w8 1 p then op (fb p) (image_byte (x / 8) y w8 p) else fb p)
  one_row-at x y w8 row p fb hp hx hy =
      let dest = u16 (u16 (y + row) * display_width_bytes + x / 8) in
      let e : dest ≡ (y + row) * 100 + x / 8 = omega arith in
      elim (Bool-cases (inside (x / 8) (y + row) w8 1 p)) [
        | inl hit ↦
            let a : p / 100 - y ≡ row = ground arith in
            let b : p - dest ≡ p % 100 - x / 8 = ground arith in
            ground (arith, draw_row-at (x / 8) dest (u16 (row * w8)) w8 0 p fb, a, b)
        | inr miss ↦ ground (arith, draw_row-at (x / 8) dest (u16 (row * w8)) w8 0 p fb, e)
      ]

  draw_rows-at :
      (x y w8 n row p : ℕ) (fb : Buffer)
      → p < buffer_size
      → x < 65536
      → y + row < 65536
      → draw_rows op image x y w8 n row fb p
        ≡ (if inside (x / 8) (y + row) w8 n p then op (fb p) (image_byte (x / 8) y w8 p) else fb p)
  unfolding draw_rows
  draw_rows-at x y w8 zero row p fb hp hx hy = ground arith
  draw_rows-at x y w8 (suc n) row p fb hp hx hy =
      elim (Bool-cases (leb display_height (u16 (y + row)))) [
        | inl stop ↦ ground arith
        | inr go ↦
            let fb' =
              draw_row op image (x / 8) (u16 (u16 (y + row) * display_width_bytes + x / 8))
                (u16 (row * w8)) w8 0 fb in
            ground (
              arith,
              one_row-at x y w8 row p fb hp hx,
              draw_rows-at x y w8 n (row + 1) p fb' hp hx (ground arith),
            )
      ]

  one_row-outside :
      (x y w8 row p : ℕ) (fb : Buffer)
      → buffer_size ≤ p
      → x < 65536
      → y + row < 480
      → draw_row op image
          (x / 8)
          (u16 (u16 (y + row) * display_width_bytes + x / 8))
          (u16 (row * w8))
          w8
          0
          fb
          p
        ≡ fb p
  one_row-outside x y w8 row p fb hp hx hy =
      let dest = u16 (u16 (y + row) * display_width_bytes + x / 8) in
      let e : dest ≡ (y + row) * 100 + x / 8 = omega arith in
      ground (arith, draw_row-at (x / 8) dest (u16 (row * w8)) w8 0 p fb, e)

  draw_rows-outside :
      (x y w8 n row p : ℕ) (fb : Buffer)
      → buffer_size ≤ p
      → x < 65536
      → y + row < 65536
      → draw_rows op image x y w8 n row fb p ≡ fb p
  unfolding draw_rows
  draw_rows-outside x y w8 zero row p fb hp hx hy = refl
  draw_rows-outside x y w8 (suc n) row p fb hp hx hy =
      let fb' =
        draw_row op image (x / 8) (u16 (u16 (y + row) * display_width_bytes + x / 8))
          (u16 (row * w8)) w8 0 fb in
      ground (
        arith,
        one_row-outside x y w8 row p fb hp hx,
        draw_rows-outside x y w8 n (row + 1) p fb' hp hx,
      )

-- Drawing into a frame buffer that is not lent succeeds. It replaces exactly the bytes of the
-- rectangle that lie on the panel and touches no other byte of the buffer and none behind it. The byte
-- in a row of the rectangle and a column of it comes from the image at the row times w / 8, taken
-- modulo 2 ^ 16 as the source's `uint16_t` is, plus the column; that is the image's byte at the same
-- place as long as the row times w / 8 is below 65536.
pub draw_image-at :
    (image : Buffer) (x y w h p : ℕ) (d : Display)
    → d.lent ≡ false
    → x < 65536
    → y < 65536
    → (e : Display) × (draw_image image x y w h d ≡ some e)
      × (e.frame_buffer p ≡ (
          if ltb p buffer_size && inside (λ a b. b) image (x / 8) y (w / 8) h p
          then image_byte (λ a b. b) image (x / 8) y (w / 8) p
          else d.frame_buffer p))
unfolding draw_image
draw_image-at image x y w h p d free hx hy = (
  record d { frame_buffer = draw_rows (λ a b. b) image x y (w / 8) h 0 d.frame_buffer },
  rw free,
  ground (
    arith,
    draw_rows-at (λ a b. b) image x y (w / 8) h 0 p d.frame_buffer,
    draw_rows-outside (λ a b. b) image x y (w / 8) h 0 p d.frame_buffer,
  ),
)

-- The transparent form combines the same bytes by a bitwise and, and touches no other.
draw_image_transparent-at :
    (image : Buffer) (x y w h p : ℕ) (d : Display)
    → d.lent ≡ false
    → x < 65536
    → y < 65536
    → (e : Display) × (draw_image_transparent image x y w h d ≡ some e)
      × (e.frame_buffer p ≡ (
          if ltb p buffer_size && inside bit_and image (x / 8) y (w / 8) h p
          then bit_and (d.frame_buffer p) (image_byte bit_and image (x / 8) y (w / 8) p)
          else d.frame_buffer p))
unfolding draw_image_transparent
draw_image_transparent-at image x y w h p d free hx hy = (
  record d { frame_buffer = draw_rows bit_and image x y (w / 8) h 0 d.frame_buffer },
  rw free,
  ground (
    arith,
    draw_rows-at bit_and image x y (w / 8) h 0 p d.frame_buffer,
    draw_rows-outside bit_and image x y (w / 8) h 0 p d.frame_buffer,
  ),
)
