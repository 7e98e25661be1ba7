-- ===== src/Display/Grayscale.antt =====
-- The conversion of the frame buffer to pixels and the grayscale preview of src/HalDisplay.cpp.
pub mod Preview
pub mod Strips
use crosspoint_simulator_ios.Base.{
  ℕ, zero, suc, ◌+◌, ◌-◌, ◌*◌, ◌/◌, ◌%◌, ◌^◌, Bool, true, false, not, ◌&&◌, ◌||◌, if◌then◌else◌,
  leb, ltb, ◌==◌, bool_eq, update, Option, none, some,
}
use crosspoint_simulator_ios.Board.{BoardProfile, is_paper_mono}
use crosspoint_simulator_ios.Display.State.{
  Display, Buffer, GrayscalePreviewState, display_width, display_height, display_width_bytes,
  buffer_size, fill_buffer, copy_buffer, get_frame_buffer,
}

-- `argbGray`: the four bytes do not overlap, so that `|` is a sum.
unfoldable pub argb_gray : ℕ → ℕ
argb_gray level = 0xFF000000 + level * 65536 + level * 256 + level

-- `getBit`: bit k of a byte is 1 where the byte over 2 ^ k is odd.
unfoldable pub get_bit : Buffer → ℕ → ℕ → Bool
get_bit buffer x y = buffer ((y * display_width + x) / 8) / 2 ^ (7 - x % 8) % 2 == 1

-- The loops over x < n in line y, and over y < m, that write each pixel of `pixelBuf`.
unfoldable pub fill_line : (ℕ → ℕ → ℕ) → ℕ → ℕ → (ℕ → ℕ) → ℕ → ℕ
fill_line f y zero px = px
fill_line f y (suc n) px = update (fill_line f y n px) (y * display_width + n) (f n y)

unfoldable pub fill_lines : (ℕ → ℕ → ℕ) → ℕ → (ℕ → ℕ) → ℕ → ℕ
fill_lines f zero px = px
fill_lines f (suc m) px = fill_line f m display_width (fill_lines f m px)

abbrev pub bw_pixel : Bool → Buffer → ℕ → ℕ → ℕ
bw_pixel invert fb x y = if not (bool_eq (get_bit fb x y) invert) then 0xFFFFFFFF else 0xFF000000

-- `renderBwPixels`
unfoldable pub render_bw_pixels : Buffer → Display → Display
render_bw_pixels fb d = record d {
  pixels = fill_lines (bw_pixel d.inverted fb) display_height d.pixels;
  pending_present = true;
}

unfoldable pub clear_grayscale_planes : GrayscalePreviewState → GrayscalePreviewState
clear_grayscale_planes s = record s {
  lsb_plane = fill_buffer 0 s.lsb_plane;
  msb_plane = fill_buffer 0 s.msb_plane;
  lsb_valid = false;
  msb_valid = false;
}

unfoldable pub snapshot_bw_base : Buffer → GrayscalePreviewState → GrayscalePreviewState
unfolding clear_grayscale_planes
snapshot_bw_base fb s =
    clear_grayscale_planes (record s { bw_base = copy_buffer fb s.bw_base; bw_base_valid = true })

-- `copyPlane`: the plane and its flag; the argument is the source, or the null pointer.
unfoldable pub copy_plane : Option Buffer → Buffer → Buffer × Bool
copy_plane none dst = (fill_buffer 0 dst, false)
copy_plane (some src) dst = (copy_buffer src dst, true)

-- The level of one pixel, before inversion.
unfoldable pub gray_level : Bool → Bool → Bool → ℕ
gray_level base_white lsb_active msb_active =
    if base_white
    then 255
    else if msb_active
    then (if lsb_active then 96 else 200)
    else if lsb_active
    then 96
    else 0

abbrev pub preview_pixel : Bool → Buffer → GrayscalePreviewState → ℕ → ℕ → ℕ
preview_pixel inverted base s x y =
    let level =
      gray_level (get_bit base x y) (s.lsb_valid && get_bit s.lsb_plane x y)
        (s.msb_valid && get_bit s.msb_plane x y) in
    argb_gray (if inverted then 255 - level else level)

abbrev pub preview_base : Display → Option Buffer
preview_base d = if d.preview.bw_base_valid then some d.preview.bw_base else get_frame_buffer d

-- `composeGrayscalePreview`; `none` where it reads through the null pointer of a lent buffer.
unfoldable pub compose_grayscale_preview : Display → Option Display
compose_grayscale_preview d = elim (preview_base d) [
  | none ↦ none
  | some base ↦ some (record d {
    pixels = fill_lines (preview_pixel d.inverted base d.preview) display_height d.pixels;
    pending_present = true;
  })
]

-- `refreshDisplay`
unfoldable pub refresh_display : Display → Option Display
refresh_display d = elim (get_frame_buffer d) [
  | none ↦ none
  | some fb ↦ some (render_bw_pixels fb (record d { preview = snapshot_bw_base fb d.preview }))
]

-- `displayGrayscaleBase`: the board decides whether the base is only recorded.
unfoldable pub display_grayscale_base : BoardProfile → Display → Option Display
display_grayscale_base profile d = elim (get_frame_buffer d) [
  | none ↦ none
  | some fb ↦
      if is_paper_mono profile
      then some (record d { preview = snapshot_bw_base fb d.preview })
      else refresh_display d
]

unfoldable pub copy_grayscale_lsb_buffers : Option Buffer → Display → Display
copy_grayscale_lsb_buffers src d =
    let (plane, valid) = copy_plane src d.preview.lsb_plane in
    record d { preview = record (d.preview) { lsb_plane = plane; lsb_valid = valid } }

unfoldable pub copy_grayscale_msb_buffers : Option Buffer → Display → Display
copy_grayscale_msb_buffers src d =
    let (plane, valid) = copy_plane src d.preview.msb_plane in
    record d { preview = record (d.preview) { msb_plane = plane; msb_valid = valid } }

unfoldable pub cleanup_grayscale_buffers : Option Buffer → Display → Display
cleanup_grayscale_buffers (some bw) d = record d { preview = snapshot_bw_base bw d.preview }
cleanup_grayscale_buffers none d = record d {
  preview =
      clear_grayscale_planes
        (record (d.preview) { bw_base = fill_buffer 0 d.preview.bw_base; bw_base_valid = false });
}

-- The rows that `writeGrayscalePlaneStrip` copies: those on the panel.
abbrev pub rows_to_copy : ℕ → ℕ → ℕ
rows_to_copy y_start num_rows =
    if ltb display_height (y_start + num_rows) then display_height - y_start else num_rows

-- Its `memcpy` into the plane.
unfoldable pub write_strip : Buffer → ℕ → ℕ → Buffer → Buffer
write_strip rows y_start num_rows plane i =
    let offset = y_start * display_width_bytes in
    let byte_count = rows_to_copy y_start num_rows * display_width_bytes in
    if leb offset i && ltb i (offset + byte_count) then rows (i - offset) else plane i

unfoldable pub write_grayscale_plane_strip : Bool → Option Buffer → ℕ → ℕ → Display → Display
write_grayscale_plane_strip lsb none y_start num_rows d = d
write_grayscale_plane_strip lsb (some rows) y_start num_rows d =
    if (num_rows == 0) || leb display_height y_start then d else record d {
      preview =
          if lsb
          then record (d.preview) {
            lsb_plane = write_strip rows y_start num_rows d.preview.lsb_plane;
            lsb_valid = true;
          }
          else record (d.preview) {
            msb_plane = write_strip rows y_start num_rows d.preview.msb_plane;
            msb_valid = true;
          };
    }
