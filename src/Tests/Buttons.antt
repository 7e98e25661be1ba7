-- ===== src/Tests/Buttons.antt =====
-- Instances of the theorems on held buttons and on the home key.
use crosspoint_simulator_ios.Base.{
  ℕ, ◌≤◌, ◌<◌, ◌≡◌, refl, true, false, not, ◌&&◌, List, [], ◌∷◌, arith, ltb, ◌⊎◌,
}
use crosspoint_simulator_ios.Base.Words.{sub64}
use crosspoint_simulator_ios.Board.{select_device, has_home_key}
use crosspoint_simulator_ios.Gpio.State.{Env, HomeKey, num_buttons, home_key_long_press_ms}
use crosspoint_simulator_ios.Gpio.Keys.{begin_home_key, end_home_key}
use crosspoint_simulator_ios.Gpio.Query.{get_held_time}
use crosspoint_simulator_ios.Gpio.HeldTime.{held_by, get_held_time-max}
use crosspoint_simulator_ios.Gpio.HomePress.{holds, held_long, home_press}
use crosspoint_simulator_ios.Tests.Fixtures.{env, later, home, gpio}

get_held_time-max_example :
    (held_by env gpio 2 ≤ get_held_time env gpio)
    × ((get_held_time env gpio ≡ 0)
        ⊎ ((j : ℕ) × (j < num_buttons) × (get_held_time env gpio ≡ held_by env gpio j)))
get_held_time-max_example = get_held_time-max env gpio 2 (omega arith)

has_key : has_home_key env.profile ≡ true
unfolding has_home_key select_device
has_key = refl

abbrev checks : List Env
checks = record env { ticks = 5650 } ∷ record env { ticks = 5710 } ∷ []

abbrev released_home : HomeKey
released_home = end_home_key later (holds checks (begin_home_key env home))

home_press_example :
    (released_home.long_pressed_this_frame ≡ held_long env.ticks checks)
    × (released_home.tapped_this_frame ≡ (
        not (held_long env.ticks checks)
        && ltb (sub64 later.ticks env.ticks) home_key_long_press_ms))
    × (released_home.down ≡ false)
home_press_example = home_press env later checks home has_key refl refl refl
