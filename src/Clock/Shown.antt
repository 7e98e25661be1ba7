-- ===== src/Clock/Shown.antt =====
-- What `HalClock::formatTime` of src/HalClock.cpp shows.
use crosspoint_simulator_ios.Base.{
  ℕ, ◌+◌, ◌-◌, ◌*◌, ◌%◌, ◌≤◌, ◌<◌, ◌≡◌, refl, Bool, true, false, ◌&&◌, Option, none, some, arith,
  if◌then◌else◌, ltb, Bytes, length, take-all,
}
use crosspoint_simulator_ios.Clock.{
  UtcTime, get_time, clamp_offset, local_minutes, twelve_hours, twenty_four_hours, format_time,
}
use crosspoint_simulator_ios.Clock.Table.{
  read_time, is_said, twelve_hours_lem, twenty_four_hours_lem,
}

local_minutes-lt : (now : UtcTime) (biased : ℕ) → local_minutes now biased < 1440
unfolding local_minutes
local_minutes-lt now biased = ground arith

-- The local time is the UTC time moved by the offset, around the clock.
local_minutes_lem :
    (now : UtcTime) (biased : ℕ)
    → (local_minutes now biased + 720) % 1440
      ≡ (now.hour * 60 + now.minute + clamp_offset biased * 15) % 1440
unfolding local_minutes
local_minutes_lem now biased = ground arith

-- What the tables say of a text.
is_said_lem :
    (o : Option ℕ) (total length limit : ℕ)
    → (is_said o total && ltb length limit) ≡ true
    → (length < limit) × (o ≡ some total)
is_said_lem none total length limit h = absurd (cc)
is_said_lem (some t) total length limit h = (ground arith, ground arith)

-- On a board with a clock, into a buffer of the size that the form needs, 9 bytes with twelve hours and 6
-- with twenty-four, `formatTime` writes a text that fits with its zero byte, uncut, and that, read back, says
-- a time of day, from 0 to 1439 minutes: the UTC time moved by the offset of `biased` - 48 quarters of an
-- hour, around the clock, where a `biased` above 104 counts as 104.
pub format_time-shows :
    (now : UtcTime) (size biased : ℕ) (use12 : Bool)
    → (if use12 then 9 else 6) ≤ size
    → (text : Bytes) × (total : ℕ) × (format_time true now size biased use12 ≡ some text)
      × (length text < (if use12 then 9 else 6))
      × (read_time text ≡ some total)
      × (total < 1440)
      × ((total + 720) % 1440
          ≡ (now.hour * 60 + now.minute + (if ltb 104 biased then 104 else biased) * 15) % 1440)
unfolding format_time get_time clamp_offset
format_time-shows now size biased true h =
    let total = local_minutes now biased in
    let (fits, read) =
      is_said_lem (read_time (twelve_hours total)) total (length (twelve_hours total)) 9
        (twelve_hours_lem total (local_minutes-lt now biased)) in
    let whole = take-all (size - 1) (twelve_hours total) (omega arith) in
    let enough : ltb size 9 ≡ false = ground arith in
    (
      twelve_hours total,
      total,
      rw (enough, whole) refl,
      fits,
      read,
      local_minutes-lt now biased,
      local_minutes_lem now biased,
    )
format_time-shows now size biased false h =
    let total = local_minutes now biased in
    let (fits, read) =
      is_said_lem (read_time (twenty_four_hours total)) total (length (twenty_four_hours total)) 6
        (twenty_four_hours_lem total (local_minutes-lt now biased)) in
    let whole = take-all (size - 1) (twenty_four_hours total) (omega arith) in
    let enough : ltb size 6 ≡ false = ground arith in
    (
      twenty_four_hours total,
      total,
      rw (enough, whole) refl,
      fits,
      read,
      local_minutes-lt now biased,
      local_minutes_lem now biased,
    )
