-- ===== src/Tests/Screen.antt =====
-- Instances of the theorems on the display.
use crosspoint_simulator_ios.Base.{
  ℕ, ◌+◌, ◌%◌, ◌≡◌, refl, true, false, List, [], ◌∷◌, some, arith, ltb, ◌&&◌, if◌then◌else◌,
}
use crosspoint_simulator_ios.Display.State.{Display, Buffer, buffer_size}
use crosspoint_simulator_ios.Display.Draw.{draw_image}
use crosspoint_simulator_ios.Display.Draw.Region.{inside, image_byte, draw_image-at}
use crosspoint_simulator_ios.Display.Grayscale.{
  refresh_display, compose_grayscale_preview, copy_grayscale_lsb_buffers,
}
use crosspoint_simulator_ios.Display.Grayscale.Preview.{preview_after_refresh}
use crosspoint_simulator_ios.Display.Grayscale.Strips.{stream, stream-eq-copy}

abbrev picture : Buffer
picture i = i % 251

abbrev display : Display
display = record {
  frame_buffer = λ i. (i + 7) % 256;
  lent = false;
  preview = record {
    bw_base = λ i. 0;
    lsb_plane = λ i. 0;
    msb_plane = λ i. 0;
    bw_base_valid = false;
    lsb_valid = false;
    msb_valid = false;
  };
  pixels = λ i. 0;
  pending_present = false;
  inverted = true;
}

draw_image-at_example :
    (e : Display) × (draw_image picture 792 470 16 20 display ≡ some e)
    × (e.frame_buffer 47099 ≡ (
        if ltb 47099 buffer_size && inside (λ a b. b) picture 99 470 2 20 47099
        then image_byte (λ a b. b) picture 99 470 2 47099
        else display.frame_buffer 47099))
draw_image-at_example =
    draw_image-at picture 792 470 16 20 47099 display refl (omega arith) (omega arith)

preview_after_refresh_example :
    (e : Display) × (e' : Display) × (refresh_display display ≡ some e)
    × (compose_grayscale_preview e ≡ some e')
    × (e'.pixels 4321 ≡ e.pixels 4321)
preview_after_refresh_example = preview_after_refresh display 4321 refl

abbrev heights : List ℕ
heights = 200 ∷ 0 ∷ 279 ∷ 1 ∷ []

stream-eq-copy_example :
    ((stream true picture 0 heights display).preview.lsb_plane 4321
      ≡ (copy_grayscale_lsb_buffers (some picture) display).preview.lsb_plane 4321)
    × ((stream true picture 0 heights display).preview.msb_plane 4321
        ≡ (copy_grayscale_lsb_buffers (some picture) display).preview.msb_plane 4321)
stream-eq-copy_example = stream-eq-copy true picture heights 4321 display refl
