-- ===== src/Gpio/HomePress.antt =====
-- One press of the home key in src/HalGPIO.cpp.
use crosspoint_simulator_ios.Base.{
  ℕ, ◌≡◌, refl, Bool, true, false, not, ◌&&◌, ◌||◌, List, [], ◌∷◌, arith, leb, ltb,
}
use crosspoint_simulator_ios.Base.Words.{sub64}
use crosspoint_simulator_ios.Board.{has_home_key}
use crosspoint_simulator_ios.Gpio.State.{Env, HomeKey, home_key_long_press_ms}
use crosspoint_simulator_ios.Gpio.Keys.{begin_home_key, end_home_key, update_home_key_hold}

-- The checks of `updateHomeKeyHold` while the key is held.
abbrev pub holds : List Env → HomeKey → HomeKey
holds [] k = k
holds (e ∷ es) k = holds es (update_home_key_hold e k)

-- Whether one of the checks finds the key held for the time of a long press.
abbrev pub held_long : ℕ → List Env → Bool
held_long start [] = false
held_long start (e ∷ es) = leb home_key_long_press_ms (sub64 e.ticks start) || held_long start es

-- What the checks make of a key that is down.
record Held (es : List Env) (k r : HomeKey) : Type 0 where
  down : r.down ≡ k.down
  start : r.pressed_at ≡ k.pressed_at
  tapped : r.tapped_this_frame ≡ k.tapped_this_frame
  fired : r.long_fired ≡ (k.long_fired || held_long k.pressed_at es)
  long :
      r.long_pressed_this_frame
      ≡ (k.long_pressed_this_frame || (not k.long_fired && held_long k.pressed_at es))

holds-Held : (es : List Env) (k : HomeKey) → k.down ≡ true → Held es k (holds es k)
unfolding update_home_key_hold
holds-Held [] k d = record {
  down = refl;
  start = refl;
  tapped = refl;
  fired = ground arith;
  long = ground arith;
}
holds-Held (e ∷ es) k d =
    let h = holds-Held es (update_home_key_hold e k) (ground (arith, d)) in
    record {
      down = ground (arith, h.down);
      start = ground (arith, h.start);
      tapped = ground (arith, h.tapped);
      fired = ground (arith, d, h.fired);
      long = ground (arith, d, h.long);
    }

-- On a board with a home key, a press of the key that is up, any number of checks and a release within
-- one frame report a long press exactly if some check found the key held for 700 ms, and a tap exactly if
-- none did and the release came before 700 ms: never both, and neither if only the release is late.
pub home_press :
    (b e : Env) (es : List Env) (k : HomeKey)
    → has_home_key b.profile ≡ true
    → k.down ≡ false
    → k.tapped_this_frame ≡ false
    → k.long_pressed_this_frame ≡ false
    → let r = end_home_key e (holds es (begin_home_key b k)) in
      (r.long_pressed_this_frame ≡ held_long b.ticks es)
      × (r.tapped_this_frame
          ≡ (not (held_long b.ticks es) && ltb (sub64 e.ticks b.ticks) home_key_long_press_ms))
      × (r.down ≡ false)
unfolding begin_home_key end_home_key
home_press b e es k board up t l =
    let h = holds-Held es (begin_home_key b k) (ground (arith, board, up)) in
    ground (arith, board, up, t, l, h.down, h.start, h.tapped, h.fired, h.long)
