-- ===== src/Tests/Fixtures.antt =====
-- A state of the input, with whole thousandths as the floating-point numbers.
use crosspoint_simulator_ios.Base.{
  ℕ, ◌-◌, ◌*◌, ◌/◌, ◌≡◌, refl, false, [], ◌∷◌, arith, ltb, if◌then◌else◌,
}
use crosspoint_simulator_ios.Board.{Board, Override, select_device}
use crosspoint_simulator_ios.Gpio.Floats.{FloatOps, FloatLaws}
use crosspoint_simulator_ios.Gpio.State.{
  Env, Orientation, Touch, LiveTouchEvent, LiveTouchAction, HomeKey, Gpio,
}

abbrev pub thousandths : FloatOps
thousandths = record {
  F = ℕ;
  of_int = λ n. n * 1000;
  to_int = λ a. a / 1000;
  sub = λ a b. if ltb b a then a - b else b - a;
  mul = λ a b. a * b / 1000;
  div = λ a b. a * 1000 / b;
  abs = λ a. a;
  lt = ltb;
}

pub no_distance : (size a : ℕ) → (if ltb a a then a - a else a - a) * (size * 1000) / 1000 ≡ 0
no_distance size a =
    let z : (if ltb a a then a - a else a - a) ≡ 0 = ground arith in rw z (omega arith)

abbrev pub thousandths-laws : FloatLaws thousandths
thousandths-laws = record {
  IsCoord = λ a. Unit {0};
  clamp01-IsCoord = λ v. tt;
  zero-IsCoord = tt;
  drift_self = λ size a h. rw (no_distance size a) refl;
  above_59_of_not_below_60 = λ size a b ha hb h. ground arith;
}

abbrev pub env : Env
env = record {
  ticks = 5000;
  millis = 5000;
  keyboard = λ s. false;
  screen_width = 480;
  screen_height = 800;
  orientation = Orientation.portrait;
  profile = select_device Override.no_override Board.xteink_x4_pro;
}

abbrev pub later : Env
later = record env { ticks = 5900; millis = 5900 }

abbrev pub rest : Touch ℕ
rest = record {
  down = false;
  pressed_this_frame = false;
  released_this_frame = false;
  moved_beyond_tap_slop = false;
  moved_beyond_tap_release_slop = false;
  long_press_this_frame = false;
  long_press_fired = false;
  suppressed = false;
  activity_this_frame = false;
  start_nx = 0;
  start_ny = 0;
  current_nx = 0;
  current_ny = 0;
  pressed_at = 0;
  last_held_ms = 0;
}

abbrev pub home : HomeKey
home = record {
  down = false;
  pressed_this_frame = false;
  tapped_this_frame = false;
  long_pressed_this_frame = false;
  long_fired = false;
  pressed_at = 0;
  down_this_frame = false;
  release_pending = false;
}

abbrev pub press_at : ℕ → LiveTouchEvent ℕ
press_at t = record { action = LiveTouchAction.down; logical_nx = 250; logical_ny = 250; at_ms = t }

abbrev pub move_at : ℕ → LiveTouchEvent ℕ
move_at t = record { action = LiveTouchAction.move; logical_nx = 600; logical_ny = 250; at_ms = t }

abbrev pub lift_at : ℕ → LiveTouchEvent ℕ
lift_at t = record { action = LiveTouchAction.up; logical_nx = 700; logical_ny = 250; at_ms = t }

abbrev pub gpio : Gpio ℕ
gpio = record {
  pressed = λ i. ltb i 2;
  released = λ i. ltb 4 i;
  press_time = λ i. 100;
  synthetic_down = λ i. ltb i 3;
  sleep_requested = false;
  touch = rest;
  live_touch = press_at 4000 ∷ move_at 4100 ∷ move_at 4200 ∷ lift_at 4300 ∷ [];
  active_finger = false;
  active_finger_id = 0;
  home = home;
  script = [];
  frame = 3;
  button_down_frame = λ i. 3;
  release_pending = λ i. ltb i 1;
  touch_frame = 2;
  quit_requested = false;
  backgrounded = false;
  present_requested = false;
}
