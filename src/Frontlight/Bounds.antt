-- ===== src/Frontlight/Bounds.antt =====
-- The range of the front light's state and of the tint, over every sequence of calls.
use crosspoint_simulator_ios.Base.{
  ℕ, ◌+◌, ◌-◌, ◌*◌, ◌/◌, ◌≤◌, ◌≡◌, Bool, true, not, ◌||◌, arith, if◌then◌else◌,
}
use crosspoint_simulator_ios.Board.{BoardProfile}
use crosspoint_simulator_ios.Frontlight.{
  Frontlight, initial, present, begin, set_brightness, set_warmth, set_on, tint,
}

-- The calls of the firmware on one board.
pub data Step (p : BoardProfile) (f : Frontlight) : Frontlight → Type 0 where
  start : (brightness warmth : ℕ) (on : Bool) → Step p f (begin p brightness warmth on f)
  dim : (percent : ℕ) → Step p f (set_brightness percent f)
  warm : (percent : ℕ) → Step p f (set_warmth p percent f)
  switch : (on : Bool) → Step p f (set_on p on f)

pub data Reach (p : BoardProfile) (f : Frontlight) : Frontlight → Type 0 where
  here : Reach p f f
  next : {g h : Frontlight} → Reach p f g → Step p g h → Reach p f h

-- Percentages are at most 100, and a light that is on exists.
pub record InRange (p : BoardProfile) (f : Frontlight) : Type 0 where
  pub brightness : f.last_brightness ≤ 100
  pub warmth : f.last_warmth ≤ 100
  pub exists : (not f.lit || present p) ≡ true

Step-InRange : (p : BoardProfile) {f g : Frontlight} → Step p f g → InRange p f → InRange p g
unfolding begin set_brightness set_warmth set_on
Step-InRange p (start b w on) h = ground arith
Step-InRange p (dim b) h = ground arith
Step-InRange p (warm w) h = ground arith
Step-InRange p (switch on) h = ground arith

Reach-InRange : (p : BoardProfile) {f g : Frontlight} → InRange p f → Reach p f g → InRange p g
Reach-InRange p h here = h
Reach-InRange p h (next r s) = Step-InRange p s (Reach-InRange p h r)

scale_le : (level k : ℕ) → k ≤ 100 → level * k / 100 ≤ level
scale_le level k h = grind arith

scale_mono : (level j k : ℕ) → j ≤ k → level * j / 100 ≤ level * k / 100
scale_mono level j k h = grind arith

tint_ordered :
    (f : Frontlight)
    → f.last_brightness ≤ 100
    → f.last_warmth ≤ 100
    → ((tint f).level ≤ 255) × ((tint f).green ≤ (tint f).level) × ((tint f).blue ≤ (tint f).green)
unfolding tint
tint_ordered f hb hw =
    let level = if f.lit then 70 + f.last_brightness * 185 / 100 else 70 in
    let w = if f.lit then f.last_warmth else 0 in
    (
      ground arith,
      scale_le level (100 - w * 25 / 100) (omega arith),
      scale_mono level (100 - w * 70 / 100) (100 - w * 25 / 100) (omega arith),
    )

-- After any sequence of calls from the initial state the two percentages are at most 100, a light
-- that is on exists on the board, and the three channels of the tint fit a byte, ordered from red down
-- to blue.
pub reached-InRange :
    (p : BoardProfile) {f : Frontlight}
    → Reach p initial f
    → InRange p f
      × ((tint f).level ≤ 255)
      × ((tint f).green ≤ (tint f).level)
      × ((tint f).blue ≤ (tint f).green)
unfolding initial
reached-InRange p {f} r =
    let h = Reach-InRange p (ground arith) r in
    let (level, green, blue) = tint_ordered f h.brightness h.warmth in (h, level, green, blue)
