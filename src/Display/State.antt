-- ===== src/Display/State.antt =====
-- The file-scope state of src/HalDisplay.cpp for the panel of 800 by 480, and the lending of the frame
-- buffer.
use crosspoint_simulator_ios.Base.{
  ℕ, Bool, true, false, not, if◌then◌else◌, ltb, Option, none, some,
}

abbrev pub display_width : ℕ
display_width = 800

abbrev pub display_height : ℕ
display_height = 480

abbrev pub display_width_bytes : ℕ
display_width_bytes = 100

abbrev pub buffer_size : ℕ
buffer_size = 48000

-- A buffer of bytes, by index.
abbrev pub Buffer : Type 0
Buffer = ℕ → ℕ

-- `GrayscalePreviewState`
pub record GrayscalePreviewState : Type 0 where
  pub bw_base : Buffer
  pub lsb_plane : Buffer
  pub msb_plane : Buffer
  pub bw_base_valid : Bool
  pub lsb_valid : Bool
  pub msb_valid : Bool

pub record Display : Type 0 where
  pub frame_buffer : Buffer  -- frameBufferStorage
  pub lent : Bool  -- frameBufferLent
  pub preview : GrayscalePreviewState
  pub pixels : ℕ → ℕ  -- pixelBuf
  pub pending_present : Bool
  pub inverted : Bool

-- `memset` and `memcpy` over a whole buffer of BUFFER_SIZE bytes, and over a range of one.
abbrev pub fill_buffer : ℕ → Buffer → Buffer
fill_buffer v b i = if ltb i buffer_size then v else b i

abbrev pub copy_buffer : Buffer → Buffer → Buffer
copy_buffer src b i = if ltb i buffer_size then src i else b i

-- `getFrameBuffer`; `none` is the null pointer.
unfoldable pub get_frame_buffer : Display → Option Buffer
get_frame_buffer d = if d.lent then none else some d.frame_buffer

-- `lendFrameBufferStorage`: the pointer, the size stored through `sizeOut`, and the new state.
unfoldable pub lend_frame_buffer_storage : Display → Option Buffer × ℕ × Display
lend_frame_buffer_storage d =
    if d.lent then (none, 0, d) else (some d.frame_buffer, buffer_size, record d { lent = true })

unfoldable pub return_frame_buffer_storage : Display → Display
return_frame_buffer_storage d =
    if not d.lent
    then d
    else record d { frame_buffer = fill_buffer 0xFF d.frame_buffer; lent = false }

-- `clearScreen`; `none` where the source writes through the null pointer.
unfoldable pub clear_screen : ℕ → Display → Option Display
clear_screen color d =
    if d.lent then none else some (record d { frame_buffer = fill_buffer color d.frame_buffer })

unfoldable pub toggle_inverted : Display → Bool × Display
toggle_inverted d = (not d.inverted, record d { inverted = not d.inverted })
