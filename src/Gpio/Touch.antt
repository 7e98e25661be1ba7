-- ===== src/Gpio/Touch.antt =====
-- The touch state machine of src/HalGPIO.cpp.
use crosspoint_simulator_ios.Base.{ℕ, ◌-◌, Bool, true, false, not, ◌&&◌, ◌||◌, if◌then◌else◌, leb}
use crosspoint_simulator_ios.Base.Words.{sub64}
use crosspoint_simulator_ios.Board.{has_touch}
use crosspoint_simulator_ios.Gpio.Floats.{FloatOps, clamp01, drift}
use crosspoint_simulator_ios.Gpio.State.{
  Orientation, portrait, portrait_inverted, landscape_clockwise, landscape_counter_clockwise, Env,
  Touch, touch_tap_slop_px, touch_tap_release_slop_px, touch_long_press_ms,
}

abbrev pub display_width : ℕ
display_width = 800

abbrev pub display_height : ℕ
display_height = 480

-- The switch of `logicalToPanelNormalized`: a logical pixel to a panel pixel. A pixel of the logical
-- screen never makes a difference negative; past its edge the source's negative `int` is clamped to
-- the coordinate 0, which is what the truncated difference gives.
unfoldable pub logical_to_physical : Orientation → ℕ → ℕ → ℕ × ℕ
logical_to_physical portrait lx ly = (ly, display_height - 1 - lx)
logical_to_physical portrait_inverted lx ly = (display_width - 1 - ly, lx)
logical_to_physical landscape_clockwise lx ly = (display_width - 1 - lx, display_height - 1 - ly)
logical_to_physical landscape_counter_clockwise lx ly = (lx, ly)

module _ (fl : FloatOps) where
  unfoldable pub logical_to_panel_normalized : Env → fl.F → fl.F → fl.F × fl.F
  logical_to_panel_normalized env nx ny =
      let lx = fl.to_int (fl.mul (clamp01 fl nx) (fl.of_int (env.screen_width - 1))) in
      let ly = fl.to_int (fl.mul (clamp01 fl ny) (fl.of_int (env.screen_height - 1))) in
      let (px, py) = logical_to_physical env.orientation lx ly in
      (
        clamp01 fl (fl.div (fl.of_int px) (fl.of_int (display_width - 1))),
        clamp01 fl (fl.div (fl.of_int py) (fl.of_int (display_height - 1))),
      )

  -- `std::abs(dx) > slop || std::abs(dy) > slop`
  unfoldable pub beyond : ℕ → Touch fl.F → Bool
  beyond slop t =
      fl.lt (fl.of_int slop) (drift fl display_width t.start_nx t.current_nx)
      || fl.lt (fl.of_int slop) (drift fl display_height t.start_ny t.current_ny)

  unfoldable pub update_touch_movement : fl.F → fl.F → Touch fl.F → Touch fl.F
  unfolding beyond
  update_touch_movement nx ny t =
      let m = record t { current_nx = nx; current_ny = ny } in
      record m {
        moved_beyond_tap_slop = m.moved_beyond_tap_slop || beyond touch_tap_slop_px m;
        moved_beyond_tap_release_slop =
            m.moved_beyond_tap_release_slop || beyond touch_tap_release_slop_px m;
      }

  unfoldable pub begin_touch : Env → fl.F → fl.F → ℕ → Touch fl.F → Touch fl.F
  begin_touch env nx ny at_ms t =
      let (px, py) = logical_to_panel_normalized env nx ny in
      if not (has_touch env.profile) then t else record t {
        down = true;
        pressed_this_frame = true;
        activity_this_frame = true;
        moved_beyond_tap_slop = false;
        moved_beyond_tap_release_slop = false;
        long_press_this_frame = false;
        long_press_fired = false;
        suppressed = false;
        start_nx = px;
        start_ny = py;
        current_nx = px;
        current_ny = py;
        pressed_at = at_ms;
      }

  unfoldable pub move_touch : Env → fl.F → fl.F → Touch fl.F → Touch fl.F
  move_touch env nx ny t =
      let (px, py) = logical_to_panel_normalized env nx ny in
      if not t.down then t else update_touch_movement px py t

  unfoldable pub end_touch : Env → fl.F → fl.F → ℕ → Touch fl.F → Touch fl.F
  end_touch env nx ny at_ms t = if not t.down then t else record (move_touch env nx ny t) {
    down = false;
    released_this_frame = true;
    activity_this_frame = true;
    last_held_ms = sub64 at_ms t.pressed_at;
  }

-- `updateTouchHold`
unfoldable pub update_touch_hold : {F : Type 0} → Env → Touch F → Touch F
update_touch_hold env t =
    if t.down
      && not t.moved_beyond_tap_slop
      && not t.long_press_fired
      && not t.suppressed
      && leb touch_long_press_ms (sub64 env.ticks t.pressed_at)
    then record t { long_press_fired = true; long_press_this_frame = true }
    else t

-- `HalGPIO::suppressTouchContact`
unfoldable pub suppress_touch_contact : {F : Type 0} → Touch F → Touch F
suppress_touch_contact t =
    if t.down || t.released_this_frame then record t { suppressed = true } else t

-- The touch part of `HalGPIO::beginFrame`.
unfoldable pub clear_touch_edges : {F : Type 0} → Touch F → Touch F
clear_touch_edges t = record t {
  pressed_this_frame = false;
  released_this_frame = false;
  activity_this_frame = false;
  long_press_this_frame = false;
}
