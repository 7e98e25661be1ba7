-- ===== src/Tests/Input.antt =====
-- Instances of the theorems on the input, with coordinates in thousandths as the floating-point numbers.
use crosspoint_simulator_ios.Base.{ℕ, ◌≡◌, refl, true, false, List, [], ◌∷◌, none, arith, ◌⊎◌}
use crosspoint_simulator_ios.Board.{select_device, has_touch}
use crosspoint_simulator_ios.Gpio.State.{Env, Scancode, Touch, LiveTouchEvent, Gpio}
use crosspoint_simulator_ios.Gpio.Touch.{beyond, suppress_touch_contact}
use crosspoint_simulator_ios.Gpio.Keys.{begin_frame}
use crosspoint_simulator_ios.Gpio.Script.{apply_live}
use crosspoint_simulator_ios.Gpio.Events.{LiveInputAction, Event, handle_user, update_input}
use crosspoint_simulator_ios.Gpio.Query.{
  was_pressed, was_released, was_touch_tap, was_swipe, was_touch_long_press, is_touch_tap_candidate,
  is_touch_held_at,
}
use crosspoint_simulator_ios.Gpio.Latch.{updates, pressed_latch, released_latch}
use crosspoint_simulator_ios.Gpio.Release.{down_up_in_one_frame}
use crosspoint_simulator_ios.Gpio.Reach.{Step, Reach}
use crosspoint_simulator_ios.Gpio.Gestures.{Tracked, tap_excludes_swipe}
use crosspoint_simulator_ios.Gpio.Contact.{
  ContactOp, contact_ops, live_moves, suppressed_contact_silent,
}
use crosspoint_simulator_ios.Tests.Fixtures.{
  thousandths, thousandths-laws, env, later, rest, press_at, move_at, lift_at, gpio,
}

abbrev two_updates : List (Env × List (Env × Event ℕ))
two_updates =
    (env, (env, Event.key_down false Scancode.left) ∷ [])
    ∷ (later, (later, Event.key_up Scancode.escape) ∷ [])
    ∷ []

pressed_before : was_pressed gpio 1 ≡ true
unfolding was_pressed
pressed_before = refl

pressed_latch_example : was_pressed (updates thousandths two_updates gpio) 1 ≡ true
pressed_latch_example = pressed_latch thousandths two_updates gpio 1 pressed_before

abbrev down_and_up : Gpio ℕ
down_and_up =
    handle_user thousandths env LiveInputAction.button_up 4
      (handle_user thousandths env LiveInputAction.button_down 4 gpio)

down_up_in_one_frame_example :
    (down_and_up.pressed 4 ≡ true)
    × (down_and_up.synthetic_down 4 ≡ true)
    × (down_and_up.released 4 ≡ gpio.released 4)
    × ((begin_frame later down_and_up).pressed 4 ≡ false)
    × ((begin_frame later down_and_up).synthetic_down 4 ≡ false)
    × ((begin_frame later down_and_up).released 4 ≡ true)
down_up_in_one_frame_example = down_up_in_one_frame thousandths env env later gpio 4 (omega arith)

abbrev second : Gpio ℕ
second = begin_frame later (update_input thousandths env [] gpio)

abbrev third : Gpio ℕ
third = update_input thousandths later [] second

rest-Tracked : Tracked thousandths thousandths-laws rest
unfolding beyond
rest-Tracked = record { start_x = tt; start_y = tt; current_x = tt; current_y = tt; noticed = refl }

tap_excludes_swipe_example :
    (was_touch_tap third.touch ≡ none) ⊎ (was_swipe thousandths third.touch ≡ none)
tap_excludes_swipe_example =
    tap_excludes_swipe thousandths thousandths-laws {g = gpio} {h = third} rest-Tracked (
      Reach.next (Reach.next (Reach.next Reach.here (Step.input env [])) (Step.frame later))
        (Step.input later []))

abbrev held : Touch ℕ
held = record rest { down = true; pressed_at = 4000 }

abbrev lift : List (ContactOp ℕ)
lift = ContactOp.frame ∷ ContactOp.end later 700 250 4600 ∷ []

abbrev silenced : Touch ℕ
silenced = contact_ops thousandths lift (suppress_touch_contact held)

suppressed_contact_silent_example :
    (was_touch_tap silenced ≡ none)
    × (was_swipe thousandths silenced ≡ none)
    × (was_touch_long_press silenced ≡ none)
    × (is_touch_tap_candidate later silenced ≡ none)
    × (is_touch_held_at silenced ≡ none)
suppressed_contact_silent_example = suppressed_contact_silent thousandths lift later held refl

abbrev late_moves : List (Env × LiveTouchEvent ℕ)
late_moves = (later, move_at 4100) ∷ []

abbrev lifted : Touch ℕ
lifted =
    apply_live thousandths later (lift_at 4300)
      (live_moves thousandths late_moves (apply_live thousandths env (press_at 4000) rest))

profile_has_touch : has_touch env.profile ≡ true
unfolding has_touch select_device
profile_has_touch = refl

abbrev gpio_moving : Gpio ℕ
gpio_moving = record gpio { live_touch = move_at 4100 ∷ move_at 4200 ∷ lift_at 4300 ∷ [] }

released_before : was_released gpio 5 ≡ true
unfolding was_released
released_before = refl

released_latch_example : was_released (updates thousandths two_updates gpio) 5 ≡ true
released_latch_example = released_latch thousandths two_updates gpio 5 released_before
