-- ===== src/Gpio/Latch.antt =====
-- Edges of buttons are kept for a whole frame: `HalGPIO::update` raises them, and only
-- `HalGPIO::beginFrame` takes them away.
use crosspoint_simulator_ios.Base.{ℕ, ◌≡◌, true, List, [], ◌∷◌, arith, inl, inr, Bool-cases, ◌==◌}
use crosspoint_simulator_ios.Gpio.Floats.{FloatOps}
use crosspoint_simulator_ios.Gpio.State.{
  Env, Gpio, SyntheticAction, SyntheticEvent, LiveTouchEvent, Scancode, scancode_to_button,
}
use crosspoint_simulator_ios.Gpio.Keys.{press_synthetic, apply_button_up, request_simulator_sleep}
use crosspoint_simulator_ios.Gpio.Script.{
  perform, due, run_script, process_synthetic_events, take_live, process_live_touch_event,
}
use crosspoint_simulator_ios.Gpio.Events.{
  Event, LiveInputAction, push_live, handle_user, handle_key_down, handle_key_up, handle_event,
  poll, after_poll, update_input,
}
use crosspoint_simulator_ios.Gpio.Query.{was_pressed, was_released}

-- Every edge of `g` is an edge of `h`.
pub record Keeps {F : Type 0} (g h : Gpio F) : Type 0 where
  pub pressed : (i : ℕ) → g.pressed i ≡ true → h.pressed i ≡ true
  pub released : (i : ℕ) → g.released i ≡ true → h.released i ≡ true

Keeps-refl : {F : Type 0} (g : Gpio F) → Keeps g g
Keeps-refl g = record { pressed = λ i h. h; released = λ i h. h }

Keeps-trans : {F : Type 0} {f g h : Gpio F} → Keeps f g → Keeps g h → Keeps f h
Keeps-trans a b = record {
  pressed = λ i h. b.pressed i (a.pressed i h);
  released = λ i h. b.released i (a.released i h);
}

module _ (fl : FloatOps) where
  perform-Keeps :
      (env : Env) (a : SyntheticAction fl.F) (g : Gpio fl.F) → Keeps g (perform fl env a g)
  unfolding perform press_synthetic apply_button_up request_simulator_sleep
  perform-Keeps env a g = record { pressed = λ i h. ground arith; released = λ i h. ground arith }

  run_script-Keeps :
      (env : Env) (es : List (SyntheticEvent fl.F)) (g : Gpio fl.F)
      → Keeps g (run_script fl env es g).1
  unfolding run_script
  run_script-Keeps env [] g = Keeps-refl g
  run_script-Keeps env (e ∷ es) g = elim (Bool-cases (due fl env e)) [
    | inl now ↦ rw now (
        Keeps-trans (perform-Keeps env e.action g)
          (run_script-Keeps env es (perform fl env e.action g)))
    | inr later ↦ rw later (run_script-Keeps env es g)
  ]

  handle_user-Keeps :
      (env : Env) (a : LiveInputAction) (i : ℕ) (g : Gpio fl.F) → Keeps g (handle_user fl env a i g)
  unfolding handle_user press_synthetic apply_button_up
  handle_user-Keeps env a i g = record {
    pressed = λ j h. ground arith;
    released = λ j h. ground arith;
  }

  handle_key-Keeps :
      (env : Env) (sc : Scancode) (g : Gpio fl.F)
      → Keeps g (handle_key_down fl env sc g) × Keeps g (handle_key_up fl env sc g)
  unfolding handle_key_down handle_key_up press_synthetic request_simulator_sleep scancode_to_button
  handle_key-Keeps env sc g = (
    record { pressed = λ j h. ground arith; released = λ j h. ground arith },
    record { pressed = λ j h. ground arith; released = λ j h. ground arith },
  )

  handle_event-Keeps :
      (env : Env) (e : Event fl.F) (g : Gpio fl.F) → Keeps g (handle_event fl env e g)
  unfolding handle_event push_live
  handle_event-Keeps env (Event.user a i) g = handle_user-Keeps env a i g
  handle_event-Keeps env (Event.key_down repeat sc) g =
      let k = handle_key-Keeps env sc g in
      record {
        pressed = λ j h. ground (arith, k.0.pressed j);
        released = λ j h. ground (arith, k.0.released j);
      }
  handle_event-Keeps env (Event.key_up sc) g = (handle_key-Keeps env sc g).1
  handle_event-Keeps env _ g = record {
    pressed = λ j h. ground arith;
    released = λ j h. ground arith;
  }

  poll-Keeps : (es : List (Env × Event fl.F)) (g : Gpio fl.F) → Keeps g (poll fl es g)
  unfolding poll
  poll-Keeps [] g = Keeps-refl g
  poll-Keeps ((env, e) ∷ es) g =
      Keeps-trans (handle_event-Keeps env e g) (poll-Keeps es (handle_event fl env e g))

  take_live-Keeps :
      (env : Env) (q : List (LiveTouchEvent fl.F)) (g : Gpio fl.F) → Keeps g (take_live fl env q g)
  unfolding take_live
  take_live-Keeps env [] g = Keeps-refl g
  take_live-Keeps env (e ∷ q) g = record { pressed = λ i h. h; released = λ i h. h }

  process_live-Keeps : (env : Env) (g : Gpio fl.F) → Keeps g (process_live_touch_event fl env g)
  unfolding process_live_touch_event
  process_live-Keeps env g = elim (Bool-cases (g.touch_frame == g.frame)) [
    | inl done ↦ rw done (Keeps-refl g)
    | inr open' ↦ rw open' (take_live-Keeps env g.live_touch g)
  ]

  after_poll-Keeps : (env : Env) (g : Gpio fl.F) → Keeps g (after_poll fl env g)
  unfolding after_poll process_synthetic_events
  after_poll-Keeps env g =
      let g₁ = process_live_touch_event fl env g in
      let k = Keeps-trans (process_live-Keeps env g) (run_script-Keeps env g₁.script g₁) in
      record { pressed = k.pressed; released = k.released }

  update_input-Keeps :
      (env : Env) (es : List (Env × Event fl.F)) (g : Gpio fl.F)
      → Keeps g (update_input fl env es g)
  unfolding update_input
  update_input-Keeps env es g = Keeps-trans (poll-Keeps es g) (after_poll-Keeps env (poll fl es g))

  -- `n` calls of `update` in one frame.
  abbrev pub updates : List (Env × List (Env × Event fl.F)) → Gpio fl.F → Gpio fl.F
  updates [] g = g
  updates ((env, es) ∷ us) g = updates us (update_input fl env es g)

  updates-Keeps :
      (us : List (Env × List (Env × Event fl.F))) (g : Gpio fl.F) → Keeps g (updates us g)
  updates-Keeps [] g = Keeps-refl g
  updates-Keeps ((env, es) ∷ us) g =
      Keeps-trans (update_input-Keeps env es g) (updates-Keeps us (update_input fl env es g))

  -- A press that `wasPressed` reports is still reported after any number of further calls of
  -- `update` in the same frame, whatever events they drain.
  pub pressed_latch :
      (us : List (Env × List (Env × Event fl.F))) (g : Gpio fl.F) (i : ℕ)
      → was_pressed g i ≡ true
      → was_pressed (updates us g) i ≡ true
  unfolding was_pressed
  pressed_latch us g i h = ground (arith, (updates-Keeps us g).pressed i)

  -- A release that `wasReleased` reports is still reported after any number of further calls of
  -- `update` in the same frame, whatever events they drain.
  pub released_latch :
      (us : List (Env × List (Env × Event fl.F))) (g : Gpio fl.F) (i : ℕ)
      → was_released g i ≡ true
      → was_released (updates us g) i ≡ true
  unfolding was_released
  released_latch us g i h = ground (arith, (updates-Keeps us g).released i)
