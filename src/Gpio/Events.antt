-- ===== src/Gpio/Events.antt =====
-- `HalGPIO::update` of src/HalGPIO.cpp, and the calls of `SimulatorInput` that post to it.
use crosspoint_simulator_ios.Base.{
  ℕ, ◌-◌, Bool, true, false, not, ◌&&◌, ◌||◌, if◌then◌else◌, ltb, ◌==◌, List, [], ◌∷◌, ◌++◌, update,
  Option, none, some,
}
use crosspoint_simulator_ios.Gpio.Floats.{FloatOps, clamp01}
use crosspoint_simulator_ios.Gpio.State.{
  Env, Scancode, scancode_to_button, LiveTouchAction, Gpio, num_buttons,
}
use crosspoint_simulator_ios.Gpio.Touch.{begin_touch, move_touch, end_touch, update_touch_hold}
use crosspoint_simulator_ios.Gpio.Keys.{
  begin_home_key, end_home_key, update_home_key_hold, press_synthetic, apply_button_up,
  request_simulator_sleep,
}
use crosspoint_simulator_ios.Gpio.Script.{process_live_touch_event, process_synthetic_events}

-- `LiveInputAction`
pub data LiveInputAction : Type 0 where
  button_down button_up home_down home_up : LiveInputAction

-- The `SDL_Event`s that the poll loop tells apart. A mouse event carries `which !=
-- SDL_TOUCH_MOUSEID`, whether it is the left button, and its position divided by the screen's
-- extent; a finger event whether SDL still knows the window, the finger and its position.
pub data Event (F : Type 0) : Type 0 where
  user : LiveInputAction → ℕ → Event F
  quit will_enter_background did_enter_foreground : Event F
  key_down : Bool → Scancode → Event F
  key_up : Scancode → Event F
  finger_down finger_motion finger_up : Bool → ℕ → F → F → Event F
  mouse_down : Bool → Bool → F → F → Event F
  mouse_motion : Bool → F → F → Event F
  mouse_up : Bool → Bool → F → F → Event F

-- `std::max(1, extent - 1)`
abbrev span : ℕ → ℕ
span extent = if ltb 1 (extent - 1) then extent - 1 else 1

module _ (fl : FloatOps) where
  -- `fingerToLogicalNormalized` with `requireInside` false: `none` if the window is gone.
  unfoldable pub finger_to_logical_normalized : Env → Bool → fl.F → fl.F → Option (fl.F × fl.F)
  finger_to_logical_normalized env window x y =
      let w = fl.of_int (span env.screen_width) in
      let h = fl.of_int (span env.screen_height) in
      if window
      then some (clamp01 fl (fl.div (fl.mul x w) w), clamp01 fl (fl.div (fl.mul y h) h))
      else none

  -- `liveTouchEvents.push_back` of a contact, where the conversion succeeded.
  unfoldable pub push_live : LiveTouchAction → ℕ → Option (fl.F × fl.F) → Gpio fl.F → Gpio fl.F
  push_live a at none g = g
  push_live a at (some (x, y)) g = record g {
    live_touch =
        g.live_touch ++ (record { action = a; logical_nx = x; logical_ny = y; at_ms = at } ∷ []);
  }

  -- The switch on `e.user.code`.
  unfoldable pub handle_user : Env → LiveInputAction → ℕ → Gpio fl.F → Gpio fl.F
  handle_user env LiveInputAction.button_down i g =
      if ltb i num_buttons
      then record (press_synthetic env i g) {
        button_down_frame = update g.button_down_frame i g.frame;
        release_pending = update g.release_pending i false;
      }
      else g
  handle_user env LiveInputAction.button_up i g =
      if ltb i num_buttons
      then (if g.button_down_frame i == g.frame
          then record g { release_pending = update g.release_pending i true }
          else apply_button_up i g)
      else g
  handle_user env LiveInputAction.home_down i g = record g {
    home = record (begin_home_key env g.home) { down_this_frame = true; release_pending = false };
  }
  handle_user env LiveInputAction.home_up i g = record g {
    home =
        if g.home.down_this_frame
        then record (g.home) { release_pending = true }
        else end_home_key env g.home;
  }

  press_key : Env → Option ℕ → Gpio fl.F → Gpio fl.F
  press_key env none g = g
  press_key env (some i) g = record g {
    pressed = update g.pressed i true;
    press_time = update g.press_time i env.ticks;
  }

  release_key : Option ℕ → Gpio fl.F → Gpio fl.F
  release_key none g = g
  release_key (some i) g = record g { released = update g.released i true }

  -- The branches SDL_KEYDOWN, without repeats, and SDL_KEYUP.
  unfoldable pub handle_key_down : Env → Scancode → Gpio fl.F → Gpio fl.F
  unfolding press_key
  handle_key_down env Scancode.h g = record g { home = begin_home_key env g.home }
  handle_key_down env Scancode.s g = request_simulator_sleep env g
  handle_key_down env sc g = press_key env (scancode_to_button sc) g

  unfoldable pub handle_key_up : Env → Scancode → Gpio fl.F → Gpio fl.F
  unfolding release_key
  handle_key_up env Scancode.h g = record g { home = end_home_key env g.home }
  handle_key_up env sc g = release_key (scancode_to_button sc) g

  -- One round of the poll loop.
  unfoldable pub handle_event : Env → Event fl.F → Gpio fl.F → Gpio fl.F
  handle_event env (Event.user a i) g = handle_user env a i g
  handle_event env Event.quit g = record g { quit_requested = true }
  handle_event env Event.will_enter_background g = record g { backgrounded = true }
  handle_event env Event.did_enter_foreground g = record g { backgrounded = false }
  handle_event env (Event.key_down repeat sc) g = if repeat then g else handle_key_down env sc g
  handle_event env (Event.key_up sc) g = handle_key_up env sc g
  handle_event env (Event.finger_down window id x y) g =
      if g.active_finger || not window
      then g
      else push_live LiveTouchAction.down env.ticks (finger_to_logical_normalized env window x y)
          (record g { active_finger = true; active_finger_id = id })
  handle_event env (Event.finger_motion window id x y) g =
      if g.active_finger && (id == g.active_finger_id)
      then push_live LiveTouchAction.move env.ticks (finger_to_logical_normalized env window x y) g
      else g
  handle_event env (Event.finger_up window id x y) g =
      if g.active_finger && (id == g.active_finger_id)
      then record (push_live LiveTouchAction.up env.ticks
          (finger_to_logical_normalized env window x y) g) { active_finger = false }
      else g
  handle_event env (Event.mouse_down real left x y) g =
      if real && left then record g { touch = begin_touch fl env x y env.ticks g.touch } else g
  handle_event env (Event.mouse_motion real x y) g =
      if real && g.touch.down then record g { touch = move_touch fl env x y g.touch } else g
  handle_event env (Event.mouse_up real left x y) g =
      if real && left then record g { touch = end_touch fl env x y env.ticks g.touch } else g

  -- The poll loop; each event comes with what its round reads.
  unfoldable pub poll : List (Env × Event fl.F) → Gpio fl.F → Gpio fl.F
  poll [] g = g
  poll ((env, e) ∷ es) g = poll es (handle_event env e g)

  -- The four calls behind the poll loop.
  unfoldable pub after_poll : Env → Gpio fl.F → Gpio fl.F
  after_poll env g =
      let g₁ = process_synthetic_events fl env (process_live_touch_event fl env g) in
      record g₁ { touch = update_touch_hold env g₁.touch; home = update_home_key_hold env g₁.home }

  -- `HalGPIO::update`
  unfoldable pub update_input : Env → List (Env × Event fl.F) → Gpio fl.F → Gpio fl.F
  update_input env es g = after_poll env (poll es g)
