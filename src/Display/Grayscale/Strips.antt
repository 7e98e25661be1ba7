-- ===== src/Display/Grayscale/Strips.antt =====
-- The strip uploads of src/HalDisplay.cpp against the upload of a whole plane.
use crosspoint_simulator_ios.Base.{
  ℕ, ◌+◌, ◌*◌, ◌≤◌, ◌≡◌, Bool, true, false, not, ◌&&◌, arith, if◌then◌else◌, ltb, leb, some, List,
  [], ◌∷◌,
}
use crosspoint_simulator_ios.Display.State.{Display, Buffer, display_height, display_width_bytes}
use crosspoint_simulator_ios.Display.Grayscale.{
  write_strip, write_grayscale_plane_strip, copy_plane, copy_grayscale_lsb_buffers,
  copy_grayscale_msb_buffers,
}

-- The firmware streams a plane: strips of the heights `hs`, one below the other from line `y` on,
-- each holding its lines of `src`.
abbrev pub stream : Bool → Buffer → ℕ → List ℕ → Display → Display
stream lsb src y [] d = d
stream lsb src y (h ∷ hs) d =
    stream lsb src (y + h) hs
      (write_grayscale_plane_strip lsb (some (λ i. src (y * display_width_bytes + i))) y h d)

abbrev pub total : List ℕ → ℕ
total [] = 0
total (h ∷ hs) = h + total hs

-- The strip of `h` lines from line `y` on, in either plane; the flag says which.
abbrev plane : Bool → Display → Buffer
plane lsb d = if lsb then d.preview.lsb_plane else d.preview.msb_plane

strip-plane :
    (lsb : Bool) (src : Buffer) (y h i : ℕ) (d : Display)
    → y + h ≤ display_height
    → let e =
        write_grayscale_plane_strip lsb (some (λ i. src (y * display_width_bytes + i))) y h d in
      (plane lsb e i ≡ (if leb (y * 100) i && ltb i ((y + h) * 100) then src i else plane lsb d i))
      × (plane (not lsb) e i ≡ plane (not lsb) d i)
unfolding write_grayscale_plane_strip write_strip
strip-plane true src y h i d b = ground arith
strip-plane false src y h i d b = ground arith

stream-plane :
    (lsb : Bool) (src : Buffer) (y : ℕ) (hs : List ℕ) (i : ℕ) (d : Display)
    → y + total hs ≤ display_height
    → let e = stream lsb src y hs d in
      (plane lsb e i
        ≡ (if leb (y * 100) i && ltb i ((y + total hs) * 100) then src i else plane lsb d i))
      × (plane (not lsb) e i ≡ plane (not lsb) d i)
stream-plane lsb src y [] i d b = ground arith
stream-plane lsb src y (h ∷ hs) i d b =
    let d' =
      write_grayscale_plane_strip lsb (some (λ i. src (y * display_width_bytes + i))) y h d in
    ground (
      arith,
      strip-plane lsb src y h i d (omega arith),
      stream-plane lsb src (y + h) hs i d' (omega arith),
    )

abbrev copy_plane_of : Bool → Buffer → Display → Display
copy_plane_of lsb src d =
    if lsb then copy_grayscale_lsb_buffers (some src) d else copy_grayscale_msb_buffers (some src) d

-- Streaming a plane in strips whose heights add up to the panel's leaves both planes with the bytes
-- that the upload of the whole plane leaves, up to the end of the buffer and beyond it.
pub stream-eq-copy :
    (lsb : Bool) (src : Buffer) (hs : List ℕ) (i : ℕ) (d : Display)
    → total hs ≡ display_height
    → let e = stream lsb src 0 hs d in
      let f = copy_plane_of lsb src d in
      (e.preview.lsb_plane i ≡ f.preview.lsb_plane i)
      × (e.preview.msb_plane i ≡ f.preview.msb_plane i)
unfolding copy_grayscale_lsb_buffers copy_grayscale_msb_buffers copy_plane
stream-eq-copy true src hs i d h = ground (arith, stream-plane true src 0 hs i d (omega arith))
stream-eq-copy false src hs i d h = ground (arith, stream-plane false src 0 hs i d (omega arith))
