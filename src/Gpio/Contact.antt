-- ===== src/Gpio/Contact.antt =====
-- The life of one contact in src/HalGPIO.cpp: suppression, and the time that it lasts.
use crosspoint_simulator_ios.Base.{ℕ, ◌≡◌, refl, true, false, ◌||◌, List, [], ◌∷◌, arith, none}
use crosspoint_simulator_ios.Base.Words.{sub64}
use crosspoint_simulator_ios.Board.{has_touch}
use crosspoint_simulator_ios.Gpio.Floats.{FloatOps}
use crosspoint_simulator_ios.Gpio.State.{Env, Touch, LiveTouchEvent, LiveTouchAction}
use crosspoint_simulator_ios.Gpio.Touch.{
  begin_touch, move_touch, end_touch, update_touch_hold, suppress_touch_contact, clear_touch_edges,
  update_touch_movement,
}
use crosspoint_simulator_ios.Gpio.Query.{
  was_touch_tap, was_swipe, was_touch_long_press, is_touch_held_at, is_touch_tap_candidate,
}
use crosspoint_simulator_ios.Gpio.Script.{apply_live}

-- What can happen to a contact that is not replaced by a new one.
pub data ContactOp (F : Type 0) : Type 0 where
  move : Env → F → F → ContactOp F
  end : Env → F → F → ℕ → ContactOp F
  hold : Env → ContactOp F
  frame : ContactOp F
  suppress : ContactOp F

suppressed_now :
    {F : Type 0} (t : Touch F)
    → (t.down || t.released_this_frame) ≡ true
    → (suppress_touch_contact t).suppressed ≡ true
unfolding suppress_touch_contact
suppressed_now t h = rw h refl

module _ (fl : FloatOps) where
  abbrev pub contact_op : ContactOp fl.F → Touch fl.F → Touch fl.F
  contact_op (ContactOp.move env x y) t = move_touch fl env x y t
  contact_op (ContactOp.end env x y at) t = end_touch fl env x y at t
  contact_op (ContactOp.hold env) t = update_touch_hold env t
  contact_op ContactOp.frame t = clear_touch_edges t
  contact_op ContactOp.suppress t = suppress_touch_contact t

  abbrev pub contact_ops : List (ContactOp fl.F) → Touch fl.F → Touch fl.F
  contact_ops [] t = t
  contact_ops (o ∷ os) t = contact_ops os (contact_op o t)

  contact_op-suppressed :
      (o : ContactOp fl.F) (t : Touch fl.F)
      → t.suppressed ≡ true
      → (contact_op o t).suppressed ≡ true
  unfolding move_touch end_touch update_touch_hold clear_touch_edges suppress_touch_contact
      update_touch_movement
  contact_op-suppressed (ContactOp.move env x y) t h = ground arith
  contact_op-suppressed _ t h = ground arith

  contact_ops-suppressed :
      (os : List (ContactOp fl.F)) (t : Touch fl.F)
      → t.suppressed ≡ true
      → (contact_ops os t).suppressed ≡ true
  contact_ops-suppressed [] t h = h
  contact_ops-suppressed (o ∷ os) t h =
      contact_ops-suppressed os (contact_op o t) (contact_op-suppressed o t h)

  -- Once the firmware suppresses a contact that is down or was just released, no gesture of it is
  -- reported any more, whatever happens until the next contact begins: no tap, no swipe, no long
  -- press, no tap candidate and no held position.
  pub suppressed_contact_silent :
      (os : List (ContactOp fl.F)) (env : Env) (t : Touch fl.F)
      → (t.down || t.released_this_frame) ≡ true
      → let u = contact_ops os (suppress_touch_contact t) in
        (was_touch_tap u ≡ none)
        × (was_swipe fl u ≡ none)
        × (was_touch_long_press u ≡ none)
        × (is_touch_tap_candidate env u ≡ none)
        × (is_touch_held_at u ≡ none)
  unfolding was_touch_tap was_swipe was_touch_long_press is_touch_tap_candidate is_touch_held_at
  suppressed_contact_silent os env t h =
      ground (arith, contact_ops-suppressed os (suppress_touch_contact t) (suppressed_now t h))

  abbrev pub live_moves : List (Env × LiveTouchEvent fl.F) → Touch fl.F → Touch fl.F
  live_moves [] t = t
  live_moves ((env, e) ∷ es) t = live_moves es (move_touch fl env e.logical_nx e.logical_ny t)

  live_moves-contact :
      (es : List (Env × LiveTouchEvent fl.F)) (t : Touch fl.F)
      → ((live_moves es t).down ≡ t.down) × ((live_moves es t).pressed_at ≡ t.pressed_at)
  unfolding move_touch update_touch_movement
  live_moves-contact [] t = (refl, refl)
  live_moves-contact ((env, e) ∷ es) t =
      ground (arith, live_moves-contact es (move_touch fl env e.logical_nx e.logical_ny t))

  -- On a touch board the length of a live contact is the time between its two events, however late
  -- they and the moves between them are processed.
  pub held_time_of_events :
      (d u : LiveTouchEvent fl.F) (e₁ e₂ : Env) (es : List (Env × LiveTouchEvent fl.F))
      (t : Touch fl.F)
      → d.action ≡ LiveTouchAction.down
      → u.action ≡ LiveTouchAction.up
      → has_touch e₁.profile ≡ true
      → let v = apply_live fl e₂ u (live_moves es (apply_live fl e₁ d t)) in
        (v.last_held_ms ≡ sub64 u.at_ms d.at_ms) × (v.released_this_frame ≡ true) × (v.down ≡ false)
  unfolding apply_live begin_touch end_touch
  held_time_of_events d u e₁ e₂ es t hd hu ht =
      ground (arith, live_moves-contact es (apply_live fl e₁ d t))
