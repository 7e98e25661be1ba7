-- ===== src/Gpio/Gestures.antt =====
-- What the gestures that src/HalGPIO.cpp reports exclude and measure.
use crosspoint_simulator_ios.Base.{ℕ, ◌≡◌, true, false, not, ◌||◌, arith, ◌⊎◌, none, if_both}
use crosspoint_simulator_ios.Board.{has_touch}
use crosspoint_simulator_ios.Gpio.Floats.{FloatOps, FloatLaws}
use crosspoint_simulator_ios.Gpio.State.{Env, Touch, Gpio, touch_tap_release_slop_px}
use crosspoint_simulator_ios.Gpio.Touch.{
  begin_touch, move_touch, end_touch, update_touch_hold, suppress_touch_contact, clear_touch_edges,
  beyond, update_touch_movement, logical_to_panel_normalized, display_width, display_height,
}
use crosspoint_simulator_ios.Gpio.Query.{was_touch_tap, was_swipe}
use crosspoint_simulator_ios.Gpio.Reach.{Reach, Closed, Reach-touch}

module _ (fl : FloatOps) (laws : FloatLaws fl) where
  -- The contact stands on the panel, and a drift past the release slop has been noticed.
  pub record Tracked (t : Touch fl.F) : Type 0 where
    pub start_x : laws.IsCoord t.start_nx
    pub start_y : laws.IsCoord t.start_ny
    pub current_x : laws.IsCoord t.current_nx
    pub current_y : laws.IsCoord t.current_ny
    pub noticed :
        (not (beyond fl touch_tap_release_slop_px t) || t.moved_beyond_tap_release_slop) ≡ true

  panel-IsCoord :
      (env : Env) (x y : fl.F)
      → let p = logical_to_panel_normalized fl env x y in laws.IsCoord p.0 × laws.IsCoord p.1
  unfolding logical_to_panel_normalized
  panel-IsCoord env x y = (laws.clamp01-IsCoord _, laws.clamp01-IsCoord _)

  at_rest :
      (t : Touch fl.F) (x y : fl.F)
      → laws.IsCoord x
      → laws.IsCoord y
      → beyond fl touch_tap_release_slop_px
          (record t { start_nx = x; start_ny = y; current_nx = x; current_ny = y })
        ≡ false
  unfolding beyond
  at_rest t x y hx hy = rw (laws.drift_self display_width x hx, laws.drift_self display_height y hy)

  begin-Tracked :
      (env : Env) (x y : fl.F) (at : ℕ) (t : Touch fl.F)
      → Tracked t
      → Tracked (begin_touch fl env x y at t)
  unfolding begin_touch beyond
  begin-Tracked env x y at t h =
      let (hx, hy) = panel-IsCoord env x y in
      if_both Tracked (not (has_touch env.profile)) h (record {
        start_x = hx;
        start_y = hy;
        current_x = hx;
        current_y = hy;
        noticed = ground (arith, at_rest t _ _ hx hy);
      })

  update-Tracked :
      (x y : fl.F) (t : Touch fl.F)
      → laws.IsCoord x
      → laws.IsCoord y
      → Tracked t
      → Tracked (update_touch_movement fl x y t)
  unfolding update_touch_movement
  update-Tracked x y t hx hy h = record {
    start_x = h.start_x;
    start_y = h.start_y;
    current_x = hx;
    current_y = hy;
    noticed = ground arith;
  }

  move-Tracked :
      (env : Env) (x y : fl.F) (t : Touch fl.F) → Tracked t → Tracked (move_touch fl env x y t)
  unfolding move_touch
  move-Tracked env x y t h =
      let (hx, hy) = panel-IsCoord env x y in
      if_both Tracked (not t.down) h (update-Tracked _ _ t hx hy h)

  end-Tracked :
      (env : Env) (x y : fl.F) (at : ℕ) (t : Touch fl.F)
      → Tracked t
      → Tracked (end_touch fl env x y at t)
  unfolding end_touch beyond
  end-Tracked env x y at t h =
      let m = move-Tracked env x y t h in
      if_both Tracked (not t.down) h (record {
        start_x = m.start_x;
        start_y = m.start_y;
        current_x = m.current_x;
        current_y = m.current_y;
        noticed = m.noticed;
      })

  hold-Tracked : (env : Env) (t : Touch fl.F) → Tracked t → Tracked (update_touch_hold env t)
  unfolding update_touch_hold beyond
  hold-Tracked env t h = ground arith

  clear-Tracked : (t : Touch fl.F) → Tracked t → Tracked (clear_touch_edges t)
  unfolding clear_touch_edges beyond
  clear-Tracked t h = ground arith

  suppress-Tracked : (t : Touch fl.F) → Tracked t → Tracked (suppress_touch_contact t)
  unfolding suppress_touch_contact beyond
  suppress-Tracked t h = ground arith

  Tracked-Closed : Closed fl Tracked
  Tracked-Closed = record {
    begin = begin-Tracked;
    move = move-Tracked;
    end = end-Tracked;
    hold = hold-Tracked;
    clear = clear-Tracked;
    suppress = suppress-Tracked;
  }

  not_both : (t : Touch fl.F) → Tracked t → (was_touch_tap t ≡ none) ⊎ (was_swipe fl t ≡ none)
  unfolding was_touch_tap was_swipe beyond
  not_both t h = ground (
    arith,
    laws.above_59_of_not_below_60 display_width t.start_nx t.current_nx h.start_x h.current_x,
    laws.above_59_of_not_below_60 display_height t.start_ny t.current_ny h.start_y h.current_y,
    h.noticed,
  )

  -- From any state whose contact is tracked, no sequence of frames, updates and suppressions leads to
  -- a state that reports the same contact both as a tap and as a swipe.
  pub tap_excludes_swipe :
      {g h : Gpio fl.F}
      → Tracked g.touch
      → Reach fl g h
      → (was_touch_tap h.touch ≡ none) ⊎ (was_swipe fl h.touch ≡ none)
  tap_excludes_swipe {g} {h} p r = not_both h.touch (Reach-touch fl Tracked Tracked-Closed p r)
