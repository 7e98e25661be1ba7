-- ===== src/Clock.antt =====
-- src/HalClock.cpp, the clock of the firmware.
pub mod Table
pub mod Shown
use crosspoint_simulator_ios.Base.{
  ℕ, ◌+◌, ◌-◌, ◌*◌, ◌/◌, ◌%◌, Bool, not, ◌||◌, [], ◌∷◌, ◌++◌, Option, none, some, if◌then◌else◌,
  ltb, leb, ◌==◌, Bytes, take,
}
use crosspoint_simulator_ios.Base.Text.{codes}

-- Hour and minute as `gmtime_r` gives them.
pub record UtcTime : Type 0 where
  pub hour : ℕ
  pub minute : ℕ

-- `HalClock::getTime`, for a board that has a clock or not.
unfoldable pub get_time : Bool → UtcTime → Option UtcTime
get_time available now = if available then some now else none

-- The offset from UTC in quarters of an hour, 48 above its value, as the code clamps it.
unfoldable pub clamp_offset : ℕ → ℕ
clamp_offset biased = if ltb 104 biased then 104 else biased

-- `((totalMinutes % 1440) + 1440) % 1440` for the local time, where the remainder of a negative number is
-- negative: 48 quarters are 720 minutes.
unfoldable pub local_minutes : UtcTime → ℕ → ℕ
local_minutes now biased =
    let sum = now.hour * 60 + now.minute + clamp_offset biased * 15 in
    if leb 720 sum then ((sum - 720) % 1440 + 1440) % 1440 else (1440 - (720 - sum) % 1440) % 1440

-- "%02d" and "%d" for a number below 100.
abbrev pub two_digits : ℕ → Bytes
two_digits n = (48 + n / 10) ∷ (48 + n % 10) ∷ []

abbrev pub plain_digits : ℕ → Bytes
plain_digits n = if ltb n 10 then (48 + n) ∷ [] else two_digits n

-- The text of a time of day, in minutes, with twelve hours or with twenty-four.
unfoldable pub twelve_hours : ℕ → Bytes
twelve_hours total =
    let hour24 = total / 60 in
    let hour12 = hour24 % 12 in
    plain_digits (if hour12 == 0 then 12 else hour12)
    ++ (58 ∷ (two_digits (total % 60) ++ (32 ∷ (if leb 12 hour24 then codes "PM" else codes "AM"))))

unfoldable pub twenty_four_hours : ℕ → Bytes
twenty_four_hours total = two_digits (total / 60) ++ (58 ∷ two_digits (total % 60))

-- `HalClock::formatTime`: what the buffer of `size` bytes holds before its zero byte, which `snprintf`
-- cuts off to fit.
unfoldable pub format_time : Bool → UtcTime → (size biased : ℕ) → (use12 : Bool) → Option Bytes
format_time available now size biased use12 =
    if ltb size (if use12 then 9 else 6) then none else elim (get_time available now) [
      | none ↦ none
      | some utc ↦
          let total = local_minutes utc biased in
          some (take (size - 1) (if use12 then twelve_hours total else twenty_four_hours total))
    ]
