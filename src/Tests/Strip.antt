-- ===== src/Tests/Strip.antt =====
-- Instances of the theorem on the on-screen keys.
use crosspoint_simulator_ios.Base.{◌-◌, ◌≡◌, refl, true, none, some, arith, map, [], ◌∷◌}
use crosspoint_simulator_ios.Board.{
  Board, Override, select_device, has_touch, has_home_key, is_x4_pro,
}
use crosspoint_simulator_ios.Controls.{
  Strip, Key, add, build, key_at, render, handle_press, handle_release, press_calls, release_calls,
}
use crosspoint_simulator_ios.Controls.Hits.{OnKey, laid_out, slot_width, key_size, press-release}

abbrev x4_pro_strip : Strip
x4_pro_strip = record {
  controls = build true (select_device Override.no_override Board.xteink_x4_pro);
  captured = none;
}

x4_pro_keys :
    map (λ c. c.key) x4_pro_strip.controls
    ≡ Key.pick_folder ∷ Key.button 4 ∷ Key.home_key ∷ Key.button 6 ∷ Key.button 5 ∷ []
unfolding build add has_touch has_home_key is_x4_pro select_device
x4_pro_keys = refl

home_is_third : key_at 2 x4_pro_strip.controls ≡ some Key.home_key
unfolding build add key_at has_touch has_home_key is_x4_pro select_device
home_is_third = refl

on_home : OnKey (slot_width 480 x4_pro_strip) (896 - 96) 96 (key_size 480 x4_pro_strip) 2 240 850
unfolding build add has_touch has_home_key is_x4_pro select_device
on_home = record {
  from_left = omega arith;
  to_right = omega arith;
  from_top = omega arith;
  to_bottom = omega arith;
}

press-release_example :
    (handle_press true 240 850 (render true 480 896 x4_pro_strip) ≡ (
      true,
      press_calls Key.home_key,
      record x4_pro_strip { controls = laid_out 480 896 x4_pro_strip; captured = some 2 },
    ))
    × (handle_release (handle_press true 240 850 (render true 480 896 x4_pro_strip)).2 ≡ (
      true,
      release_calls Key.home_key,
      record x4_pro_strip { controls = laid_out 480 896 x4_pro_strip; captured = none },
    ))
press-release_example =
    press-release 480 896 2 240 850 x4_pro_strip Key.home_key home_is_third on_home
