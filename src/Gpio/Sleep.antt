-- ===== src/Gpio/Sleep.antt =====
-- Deep sleep in src/HalGPIO.cpp: `clearButtonState` and `startDeepSleep`.
use crosspoint_simulator_ios.Base.{
  ℕ, zero, suc, Bool, true, false, not, ◌&&◌, ◌||◌, List, [], ◌∷◌, Option, none, some,
  if◌then◌else◌, ltb,
}
use crosspoint_simulator_ios.Gpio.Floats.{FloatOps}
use crosspoint_simulator_ios.Gpio.State.{
  Env, Touch, Gpio, num_buttons, no_frame, scancode_to_button,
}
use crosspoint_simulator_ios.Gpio.Script.{process_synthetic_events}
use crosspoint_simulator_ios.Gpio.Events.{Event}

-- How a sleep ends: the simulator quits, or it is started again.
pub data SleepEnd : Type 0 where
  quits reboots : SleepEnd

module _ (fl : FloatOps) where
  -- `touchState = {}`
  abbrev pub no_touch : Touch fl.F
  no_touch = record {
    down = false;
    pressed_this_frame = false;
    released_this_frame = false;
    moved_beyond_tap_slop = false;
    moved_beyond_tap_release_slop = false;
    long_press_this_frame = false;
    long_press_fired = false;
    suppressed = false;
    activity_this_frame = false;
    start_nx = fl.of_int 0;
    start_ny = fl.of_int 0;
    current_nx = fl.of_int 0;
    current_ny = fl.of_int 0;
    pressed_at = 0;
    last_held_ms = 0;
  }

  -- `clearButtonState`
  unfoldable pub clear_button_state : Gpio fl.F → Gpio fl.F
  clear_button_state g = record g {
    pressed = λ i. if ltb i num_buttons then false else g.pressed i;
    released = λ i. if ltb i num_buttons then false else g.released i;
    press_time = λ i. if ltb i num_buttons then 0 else g.press_time i;
    synthetic_down = λ i. if ltb i num_buttons then false else g.synthetic_down i;
    touch = no_touch;
    live_touch = [];
    touch_frame = no_frame;
    active_finger = false;
    home = record g.home {
      down = false;
      pressed_this_frame = false;
      tapped_this_frame = false;
      long_pressed_this_frame = false;
      long_fired = false;
      pressed_at = 0;
    };
  }

  -- Whether the script holds a button below n.
  unfoldable pub any_synthetic : ℕ → Gpio fl.F → Bool
  any_synthetic zero g = false
  any_synthetic (suc n) g = any_synthetic n g || g.synthetic_down n

  abbrev pub is_button_key : Event fl.F → Bool
  is_button_key (Event.key_down repeated code) =
      not repeated && elim (scancode_to_button code) [ none ↦ false | some i ↦ true ]
  is_button_key _ = false

  -- The events of one round, in order.
  unfoldable pub sleep_events : List (Event fl.F) → Option SleepEnd
  sleep_events [] = none
  sleep_events (Event.quit ∷ es) = some quits
  sleep_events (e ∷ es) =
      let rest = sleep_events es in if is_button_key e then some reboots else rest

  -- One round of `startDeepSleep`, with what the poll finds: how the sleep ends, and the state.
  unfoldable pub sleep_round : Env → List (Event fl.F) → Gpio fl.F → Option SleepEnd × Gpio fl.F
  sleep_round env es g =
      let scripted = process_synthetic_events fl env g in
      if scripted.quit_requested
      then (some quits, scripted)
      else if any_synthetic num_buttons scripted
      then (some reboots, clear_button_state scripted)
      else elim (sleep_events es) [
        | none ↦ (none, scripted)
        | some quits ↦ (some quits, record scripted { quit_requested = true })
        | some reboots ↦ (some reboots, clear_button_state scripted)
      ]

  unfoldable pub sleep_rounds :
      List (Env × List (Event fl.F)) → Gpio fl.F → Option SleepEnd × Gpio fl.F
  sleep_rounds [] g = (none, g)
  sleep_rounds ((env, es) ∷ rounds) g =
      let r = sleep_round env es g in
      let rest = sleep_rounds rounds r.1 in elim r.0 [ none ↦ rest | some e ↦ r ]

  -- `startDeepSleep` over the rounds that it has made; `none` is a sleep that goes on.
  unfoldable pub start_deep_sleep :
      List (Env × List (Event fl.F)) → Gpio fl.F → Option SleepEnd × Gpio fl.F
  start_deep_sleep rounds g = sleep_rounds rounds (clear_button_state g)
