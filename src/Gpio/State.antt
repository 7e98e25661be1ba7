-- ===== src/Gpio/State.antt =====
-- The file-scope state of src/HalGPIO.cpp, and what a call reads from outside of it.
use crosspoint_simulator_ios.Base.{ℕ, ◌-◌, ◌^◌, Bool, List, Option, none, some}
use crosspoint_simulator_ios.Board.{BoardProfile}

abbrev pub num_buttons : ℕ
num_buttons = 7

abbrev pub btn_power : ℕ
btn_power = 6

abbrev pub touch_tap_slop_px : ℕ
touch_tap_slop_px = 28

abbrev pub touch_swipe_min_px : ℕ
touch_swipe_min_px = 60

abbrev pub touch_tap_release_slop_px : ℕ
touch_tap_release_slop_px = touch_swipe_min_px - 1

abbrev pub touch_swipe_max_ms : ℕ
touch_swipe_max_ms = 700

abbrev pub touch_long_press_ms : ℕ
touch_long_press_ms = 500

abbrev pub home_key_long_press_ms : ℕ
home_key_long_press_ms = 700

-- `~0UL`
abbrev pub no_frame : ℕ
no_frame = 2 ^ 64 - 1

-- The scancodes that the file names; `other` is any further key.
pub data Scancode : Type 0 where
  escape return left right up down p s h : Scancode
  other : ℕ → Scancode

-- `buttonScancode`
unfoldable pub button_scancode : ℕ → Scancode
button_scancode ℕ.zero = Scancode.escape
button_scancode (ℕ.suc ℕ.zero) = Scancode.return
button_scancode (ℕ.suc (ℕ.suc ℕ.zero)) = Scancode.left
button_scancode (ℕ.suc (ℕ.suc (ℕ.suc ℕ.zero))) = Scancode.right
button_scancode (ℕ.suc (ℕ.suc (ℕ.suc (ℕ.suc ℕ.zero)))) = Scancode.up
button_scancode (ℕ.suc (ℕ.suc (ℕ.suc (ℕ.suc (ℕ.suc ℕ.zero))))) = Scancode.down
button_scancode _ = Scancode.p

-- `scancodeToButton`: the search through `buttonScancode`, -1 being `none`.
unfoldable pub scancode_to_button : Scancode → Option ℕ
scancode_to_button Scancode.escape = some 0
scancode_to_button Scancode.return = some 1
scancode_to_button Scancode.left = some 2
scancode_to_button Scancode.right = some 3
scancode_to_button Scancode.up = some 4
scancode_to_button Scancode.down = some 5
scancode_to_button Scancode.p = some 6
scancode_to_button _ = none

-- `GfxRenderer::Orientation`
pub data Orientation : Type 0 where
  portrait portrait_inverted landscape_clockwise landscape_counter_clockwise : Orientation

-- What a call reads from SDL, from the firmware's renderer and from the board.
pub record Env : Type 0 where
  pub ticks : ℕ  -- SDL_GetTicks()
  pub millis : ℕ
  pub keyboard : Scancode → Bool  -- SDL_GetKeyboardState
  pub screen_width : ℕ
  pub screen_height : ℕ
  pub orientation : Orientation
  pub profile : BoardProfile

-- `TouchState`
pub record Touch (F : Type 0) : Type 0 where
  pub down : Bool
  pub pressed_this_frame : Bool
  pub released_this_frame : Bool
  pub moved_beyond_tap_slop : Bool
  pub moved_beyond_tap_release_slop : Bool
  pub long_press_this_frame : Bool
  pub long_press_fired : Bool
  pub suppressed : Bool
  pub activity_this_frame : Bool
  pub start_nx : F
  pub start_ny : F
  pub current_nx : F
  pub current_ny : F
  pub pressed_at : ℕ
  pub last_held_ms : ℕ

pub data LiveTouchAction : Type 0 where
  down move up : LiveTouchAction

pub record LiveTouchEvent (F : Type 0) : Type 0 where
  pub action : LiveTouchAction
  pub logical_nx : F
  pub logical_ny : F
  pub at_ms : ℕ

-- The `homeKey...` variables.
pub record HomeKey : Type 0 where
  pub down : Bool
  pub pressed_this_frame : Bool
  pub tapped_this_frame : Bool
  pub long_pressed_this_frame : Bool
  pub long_fired : Bool
  pub pressed_at : ℕ
  pub down_this_frame : Bool
  pub release_pending : Bool

-- `SyntheticAction`, each with the fields of the event that it reads.
pub data SyntheticAction (F : Type 0) : Type 0 where
  key_down : ℕ → SyntheticAction F
  key_up : ℕ → SyntheticAction F
  touch_down : F → F → SyntheticAction F
  touch_move : F → F → SyntheticAction F
  touch_up : F → F → SyntheticAction F
  home_down : SyntheticAction F
  home_up : SyntheticAction F
  sleep : SyntheticAction F
  quit : SyntheticAction F

pub record SyntheticEvent (F : Type 0) : Type 0 where
  pub at_ms : ℕ
  pub action : SyntheticAction F
  pub handled : Bool

-- An array of NUM_BUTTONS elements is a function of the index.
pub record Gpio (F : Type 0) : Type 0 where
  pub pressed : ℕ → Bool  -- pressedThisFrame
  pub released : ℕ → Bool  -- releasedThisFrame
  pub press_time : ℕ → ℕ
  pub synthetic_down : ℕ → Bool
  pub sleep_requested : Bool
  pub touch : Touch F
  pub live_touch : List (LiveTouchEvent F)
  pub active_finger : Bool
  pub active_finger_id : ℕ
  pub home : HomeKey
  pub script : List (SyntheticEvent F)
  pub frame : ℕ  -- inputFrameCounter
  pub button_down_frame : ℕ → ℕ
  pub release_pending : ℕ → Bool
  pub touch_frame : ℕ  -- touchEventProcessedFrame
  pub quit_requested : Bool
  pub backgrounded : Bool
  pub present_requested : Bool
