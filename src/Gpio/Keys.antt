-- ===== src/Gpio/Keys.antt =====
-- Buttons, the home key and the simulator's own requests in src/HalGPIO.cpp.
use crosspoint_simulator_ios.Base.{
  ℕ, zero, suc, ◌+◌, Bool, true, false, not, ◌&&◌, ◌||◌, if◌then◌else◌, leb, ltb, update,
}
use crosspoint_simulator_ios.Base.Words.{sub64, u64}
use crosspoint_simulator_ios.Board.{has_home_key}
use crosspoint_simulator_ios.Gpio.State.{
  Env, HomeKey, Gpio, num_buttons, btn_power, home_key_long_press_ms,
}
use crosspoint_simulator_ios.Gpio.Touch.{clear_touch_edges}

-- `beginHomeKey`
unfoldable pub begin_home_key : Env → HomeKey → HomeKey
begin_home_key env k = if not (has_home_key env.profile) || k.down then k else record k {
  down = true;
  pressed_this_frame = true;
  long_fired = false;
  pressed_at = env.ticks;
}

-- `endHomeKey`
unfoldable pub end_home_key : Env → HomeKey → HomeKey
end_home_key env k = if not k.down then k else record k {
  down = false;
  tapped_this_frame =
      k.tapped_this_frame
      || (not k.long_fired && ltb (sub64 env.ticks k.pressed_at) home_key_long_press_ms);
}

-- `updateHomeKeyHold`
unfoldable pub update_home_key_hold : Env → HomeKey → HomeKey
update_home_key_hold env k =
    if k.down && not k.long_fired && leb home_key_long_press_ms (sub64 env.ticks k.pressed_at)
    then record k { long_fired = true; long_pressed_this_frame = true }
    else k

-- The loop of `HalGPIO::beginFrame` over the two edge arrays, for i < n.
unfoldable pub clear_edges : ℕ → (ℕ → Bool) → ℕ → Bool
clear_edges zero f = f
clear_edges (suc n) f = update (clear_edges n f) n false

module _ {F : Type 0} where
  -- The three assignments by which an event presses a button.
  unfoldable pub press_synthetic : Env → ℕ → Gpio F → Gpio F
  press_synthetic env i g = record g {
    pressed = update g.pressed i true;
    synthetic_down = update g.synthetic_down i true;
    press_time = update g.press_time i env.ticks;
  }

  unfoldable pub apply_button_up : ℕ → Gpio F → Gpio F
  apply_button_up i g = record g {
    released = update g.released i true;
    synthetic_down = update g.synthetic_down i false;
  }

  unfoldable pub request_simulator_sleep : Env → Gpio F → Gpio F
  unfolding press_synthetic
  request_simulator_sleep env g =
      press_synthetic env btn_power (record g { sleep_requested = true })

  -- One round of the loop of `SimulatorInput::tick`; the flag is `released`.
  unfoldable pub deliver_release : ℕ → Gpio F × Bool → Gpio F × Bool
  deliver_release i (g, released) =
      if g.release_pending i
      then (
        apply_button_up i (record g { release_pending = update g.release_pending i false }),
        true,
      )
      else (g, released)

  -- The loop for i < n.
  unfoldable pub deliver_releases : ℕ → Gpio F × Bool → Gpio F × Bool
  deliver_releases zero s = s
  deliver_releases (suc n) s = deliver_release n (deliver_releases n s)

  -- `SimulatorInput::tick`
  unfoldable pub tick : Env → Gpio F → Gpio F
  tick env g =
      let (g₁, released) = deliver_releases num_buttons (g, false) in
      let home_due = g₁.home.release_pending in
      let home₁ =
        if home_due
        then end_home_key env (record (g₁.home) { release_pending = false })
        else g₁.home in
      record g₁ {
        home = record home₁ { down_this_frame = false };
        frame = u64 (g₁.frame + 1);
        present_requested = g₁.present_requested || (released || home_due);
      }

  -- The assignments of `HalGPIO::beginFrame` before its call of `tick`.
  unfoldable pub clear_frame_edges : Gpio F → Gpio F
  clear_frame_edges g = record g {
    pressed = clear_edges num_buttons g.pressed;
    released = clear_edges num_buttons g.released;
    touch = clear_touch_edges g.touch;
    home = record (g.home) {
      pressed_this_frame = false;
      tapped_this_frame = false;
      long_pressed_this_frame = false;
    };
  }

  -- `HalGPIO::beginFrame`
  unfoldable pub begin_frame : Env → Gpio F → Gpio F
  begin_frame env g = tick env (clear_frame_edges g)

  -- `HalGPIO::consumeSimulatorSleepRequest`
  unfoldable pub consume_simulator_sleep_request : Gpio F → Bool × Gpio F
  consume_simulator_sleep_request g = (g.sleep_requested, record g { sleep_requested = false })
