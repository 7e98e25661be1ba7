-- ===== src/Frontlight.antt =====
-- src/HalFrontlight.cpp, the front light's state, and the tint that src/HalDisplay.cpp makes of it
-- when it presents a frame.
pub mod Bounds
use crosspoint_simulator_ios.Base.{
  ℕ, ◌+◌, ◌-◌, ◌*◌, ◌/◌, Bool, true, false, not, ◌&&◌, if◌then◌else◌, min,
}
use crosspoint_simulator_ios.Base.Words.{u8}
use crosspoint_simulator_ios.Board.{BoardProfile, is_x4_pro, has_pwm_frontlight}

-- The three fields, and whether a present was requested of the display.
pub record Frontlight : Type 0 where
  pub last_brightness : ℕ
  pub last_warmth : ℕ
  pub lit : Bool
  pub present_requested : Bool

unfoldable pub initial : Frontlight
initial = record { last_brightness = 60; last_warmth = 50; lit = false; present_requested = false }

unfoldable pub present : BoardProfile → Bool
present = has_pwm_frontlight

unfoldable pub has_color_temperature : BoardProfile → Bool
has_color_temperature = is_x4_pro

unfoldable pub begin : BoardProfile → ℕ → ℕ → Bool → Frontlight → Frontlight
begin p brightness warmth on f = if not (present p) then f else record f {
  last_brightness = min brightness 100;
  last_warmth = if has_color_temperature p then min warmth 100 else 0;
  lit = on;
}

unfoldable pub set_brightness : ℕ → Frontlight → Frontlight
set_brightness percent f = record f { last_brightness = min percent 100; present_requested = true }

unfoldable pub set_warmth : BoardProfile → ℕ → Frontlight → Frontlight
set_warmth p percent f = record f {
  last_warmth = if has_color_temperature p then min percent 100 else f.last_warmth;
  present_requested = true;
}

unfoldable pub set_on : BoardProfile → Bool → Frontlight → Frontlight
set_on p on f = record f { lit = present p && on; present_requested = true }

-- The colour that `presentIfNeeded` gives the texture, where there is a front light, before the casts
-- to `Uint8`.
pub record Tint : Type 0 where
  pub level : ℕ
  pub green : ℕ
  pub blue : ℕ

unfoldable pub tint : Frontlight → Tint
tint f =
    let level = if f.lit then 70 + f.last_brightness * 185 / 100 else 70 in
    let warmth = if f.lit then f.last_warmth else 0 in
    record {
      level = level;
      green = level * (100 - warmth * 25 / 100) / 100;
      blue = level * (100 - warmth * 70 / 100) / 100;
    }
