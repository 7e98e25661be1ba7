-- ===== src/Gpio/Query.antt =====
-- What the firmware asks of the input state: the accessors of src/HalGPIO.cpp.
use crosspoint_simulator_ios.Base.{
  ℕ, zero, suc, Bool, false, not, ◌&&◌, ◌||◌, if◌then◌else◌, leb, ltb, ◌==◌, Option, none, some,
}
use crosspoint_simulator_ios.Base.Words.{sub64}
use crosspoint_simulator_ios.Gpio.Floats.{FloatOps, drift}
use crosspoint_simulator_ios.Gpio.State.{
  Env, Touch, Gpio, button_scancode, num_buttons, btn_power, touch_swipe_min_px, touch_swipe_max_ms,
}
use crosspoint_simulator_ios.Gpio.Touch.{display_width, display_height}

module _ {F : Type 0} where
  unfoldable pub is_pressed : Env → Gpio F → ℕ → Bool
  is_pressed env g i =
      if leb num_buttons i then false else env.keyboard (button_scancode i) || g.synthetic_down i

  unfoldable pub was_pressed : Gpio F → ℕ → Bool
  was_pressed g i = if leb num_buttons i then false else g.pressed i

  unfoldable pub was_released : Gpio F → ℕ → Bool
  was_released g i = if leb num_buttons i then false else g.released i

  -- The loop of `getHeldTime` for i < n, from the value 0 of `maxHeld`.
  unfoldable pub max_held : Env → Gpio F → ℕ → ℕ
  max_held env g zero = 0
  max_held env g (suc n) =
      let held = sub64 env.ticks (g.press_time n) in
      let so_far = max_held env g n in
      if (env.keyboard (button_scancode n) || g.synthetic_down n)
        && ltb 0 (g.press_time n)
        && ltb so_far held
      then held
      else so_far

  unfoldable pub get_held_time : Env → Gpio F → ℕ
  get_held_time env g = max_held env g num_buttons

  unfoldable pub get_power_button_held_time : Env → Gpio F → ℕ
  get_power_button_held_time env g =
      if (not (env.keyboard (button_scancode btn_power)) && not (g.synthetic_down btn_power))
        || (g.press_time btn_power == 0)
      then 0
      else sub64 env.ticks (g.press_time btn_power)

  -- A gesture is `none` where the source returns false, and its coordinates where it returns true.
  unfoldable pub was_touch_tap : Touch F → Option (F × F)
  was_touch_tap t =
      if not t.released_this_frame || t.moved_beyond_tap_release_slop || t.suppressed
      then none
      else some (t.start_nx, t.start_ny)

  unfoldable pub is_touch_tap_candidate : Env → Touch F → Option (F × F × ℕ)
  is_touch_tap_candidate env t =
      if not t.down || t.moved_beyond_tap_slop || t.suppressed
      then none
      else some (t.start_nx, t.start_ny, sub64 env.ticks t.pressed_at)

  unfoldable pub is_touch_held_at : Touch F → Option (F × F)
  is_touch_held_at t =
      if not t.down || t.suppressed then none else some (t.current_nx, t.current_ny)

  unfoldable pub was_touch_long_press : Touch F → Option (F × F)
  was_touch_long_press t =
      if not t.long_press_this_frame || t.suppressed then none else some (t.start_nx, t.start_ny)

module _ (fl : FloatOps) where
  -- `std::abs(dx) < TOUCH_SWIPE_MIN_PX && std::abs(dy) < TOUCH_SWIPE_MIN_PX`
  unfoldable pub short_drag : Touch fl.F → Bool
  short_drag t =
      fl.lt (drift fl display_width t.start_nx t.current_nx) (fl.of_int touch_swipe_min_px)
      && fl.lt (drift fl display_height t.start_ny t.current_ny) (fl.of_int touch_swipe_min_px)

  unfoldable pub was_swipe : Touch fl.F → Option (fl.F × fl.F × fl.F × fl.F)
  unfolding short_drag
  was_swipe t =
      if (not t.released_this_frame || t.suppressed || ltb touch_swipe_max_ms t.last_held_ms)
        || short_drag t
      then none
      else some (t.start_nx, t.start_ny, t.current_nx, t.current_ny)
