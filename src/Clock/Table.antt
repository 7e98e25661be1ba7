-- ===== src/Clock/Table.antt =====
-- Reading a time of day back, checked at every minute of a day.
use crosspoint_simulator_ios.Base.{
  ℕ, zero, suc, ◌+◌, ◌-◌, ◌*◌, ◌<◌, ◌≡◌, refl, Bool, true, false, ◌&&◌, [], ◌∷◌, Option, none, some,
  arith, if◌then◌else◌, ltb, ◌==◌, Bytes, length, bytes_eq,
}
use crosspoint_simulator_ios.Base.Search.{split_at}
use crosspoint_simulator_ios.Base.Text.{codes}
use crosspoint_simulator_ios.Clock.{twelve_hours, twenty_four_hours}

abbrev pub number : ℕ → Bytes → ℕ
number acc [] = acc
number acc (c ∷ cs) = number (acc * 10 + (c - 48)) cs

-- The minutes that a text of a time says: hours, a colon, two digits of minutes, and then nothing, or a
-- space and AM or PM, where the hours are not 0,
-- 12 AM is midnight and 12 PM noon.
abbrev pub read_minutes : ℕ → Bytes → Option ℕ
read_minutes hour (a ∷ b ∷ []) = some (hour * 60 + number 0 (a ∷ b ∷ []))
read_minutes hour (a ∷ b ∷ c ∷ suffix) =
    let hour12 = if hour == 12 then 0 else hour in
    let minutes = number 0 (a ∷ b ∷ []) in
    if hour == 0
    then none
    else if bytes_eq suffix (codes "AM")
    then some (hour12 * 60 + minutes)
    else if bytes_eq suffix (codes "PM")
    then some ((hour12 + 12) * 60 + minutes)
    else none
read_minutes hour _ = none

abbrev pub read_time : Bytes → Option ℕ
read_time text = elim (split_at 58 text) [
  | none ↦ none
  | some (hour, rest) ↦ read_minutes (number 0 hour) rest
]

abbrev pub is_said : Option ℕ → ℕ → Bool
is_said none total = false
is_said (some t) total = t == total

abbrev pub fits_twelve : ℕ → Bool
fits_twelve total =
    is_said (read_time (twelve_hours total)) total && ltb (length (twelve_hours total)) 9

abbrev pub fits_twenty_four : ℕ → Bool
fits_twenty_four total =
    is_said (read_time (twenty_four_hours total)) total && ltb (length (twenty_four_hours total)) 6

-- The check of all minutes before a given one.
day_until : (minutes : ℕ) → (ℕ → Bool) → Bool
day_until zero holds = true
day_until (suc minute) holds = if holds minute then day_until minute holds else false

minute_of_day :
    (holds : ℕ → Bool) (minutes minute : ℕ)
    → minute < minutes
    → day_until minutes holds ≡ true
    → holds minute ≡ true
unfolding day_until
minute_of_day holds zero minute early checked = absurd (omega arith)
minute_of_day holds (suc last) minute early checked =
    ground (arith, minute_of_day holds last minute)

pub twelve_hours_lem : (total : ℕ) → total < 1440 → fits_twelve total ≡ true
unfolding day_until twelve_hours
twelve_hours_lem total early = minute_of_day fits_twelve 1440 total early refl

pub twenty_four_hours_lem : (total : ℕ) → total < 1440 → fits_twenty_four total ≡ true
unfolding day_until twenty_four_hours
twenty_four_hours_lem total early = minute_of_day fits_twenty_four 1440 total early refl
