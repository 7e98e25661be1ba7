-- ===== src/Gpio/Reach.antt =====
-- The input states that the firmware can meet: any sequence of frames, updates and suppressed
-- contacts; and a rule by which a property of the touch state holds in all of them.
use crosspoint_simulator_ios.Base.{
  ℕ, ◌≡◌, refl, Bool, false, List, [], ◌∷◌, arith, Bool-cases, inl, inr, ◌==◌,
}
use crosspoint_simulator_ios.Gpio.Floats.{FloatOps}
use crosspoint_simulator_ios.Gpio.State.{
  Env, Touch, Gpio, SyntheticAction, SyntheticEvent, LiveTouchEvent, LiveTouchAction, num_buttons,
}
use crosspoint_simulator_ios.Gpio.Touch.{
  begin_touch, move_touch, end_touch, update_touch_hold, suppress_touch_contact, clear_touch_edges,
}
use crosspoint_simulator_ios.Gpio.Keys.{
  press_synthetic, apply_button_up, request_simulator_sleep, begin_frame, tick, clear_frame_edges,
  deliver_release, deliver_releases,
}
use crosspoint_simulator_ios.Gpio.Script.{
  perform, due, run_script, process_synthetic_events, apply_live, next_live, take_live,
  process_live_touch_event,
}
use crosspoint_simulator_ios.Gpio.Events.{
  Event, push_live, handle_user, handle_key_down, handle_key_up, handle_event, poll, after_poll,
  update_input,
}

module _ (fl : FloatOps) where
  -- One call by the frame loop or by the firmware.
  pub data Step (g : Gpio fl.F) : Gpio fl.F → Type 0 where
    frame : (env : Env) → Step g (begin_frame env g)
    input : (env : Env) (es : List (Env × Event fl.F)) → Step g (update_input fl env es g)
    suppress : Step g (record g { touch = suppress_touch_contact g.touch })

  pub data Reach (g : Gpio fl.F) : Gpio fl.F → Type 0 where
    here : Reach g g
    next : {h k : Gpio fl.F} → Reach g h → Step h k → Reach g k

  -- A property that every operation on the touch state keeps.
  pub record Closed (P : Touch fl.F → Type 0) : Type 0 where
    pub begin :
        (env : Env) (x y : fl.F) (at : ℕ) (t : Touch fl.F) → P t → P (begin_touch fl env x y at t)
    pub move : (env : Env) (x y : fl.F) (t : Touch fl.F) → P t → P (move_touch fl env x y t)
    pub end :
        (env : Env) (x y : fl.F) (at : ℕ) (t : Touch fl.F) → P t → P (end_touch fl env x y at t)
    pub hold : (env : Env) (t : Touch fl.F) → P t → P (update_touch_hold env t)
    pub clear : (t : Touch fl.F) → P t → P (clear_touch_edges t)
    pub suppress : (t : Touch fl.F) → P t → P (suppress_touch_contact t)

  module _ (P : Touch fl.F → Type 0) (c : Closed P) where
    perform-touch :
        (env : Env) (a : SyntheticAction fl.F) (g : Gpio fl.F)
        → P g.touch
        → P (perform fl env a g).touch
    unfolding perform press_synthetic apply_button_up request_simulator_sleep
    perform-touch env (SyntheticAction.touch_down x y) g p = c.begin env x y env.ticks g.touch p
    perform-touch env (SyntheticAction.touch_move x y) g p = c.move env x y g.touch p
    perform-touch env (SyntheticAction.touch_up x y) g p = c.end env x y env.ticks g.touch p
    perform-touch env _ g p = p

    run_script-touch :
        (env : Env) (es : List (SyntheticEvent fl.F)) (g : Gpio fl.F)
        → P g.touch
        → P (run_script fl env es g).1.touch
    unfolding run_script
    run_script-touch env [] g p = p
    run_script-touch env (e ∷ es) g p = elim (Bool-cases (due fl env e)) [
      | inl now ↦
          rw now
            (run_script-touch env es (perform fl env e.action g) (perform-touch env e.action g p))
      | inr later ↦ rw later (run_script-touch env es g p)
    ]

    apply_live-touch :
        (env : Env) (e : LiveTouchEvent fl.F) (t : Touch fl.F) → P t → P (apply_live fl env e t)
    unfolding apply_live
    apply_live-touch env e t p =
        elim e.action
          as (λ a. P (elim a [
            | LiveTouchAction.down ↦ begin_touch fl env e.logical_nx e.logical_ny e.at_ms t
            | LiveTouchAction.move ↦ move_touch fl env e.logical_nx e.logical_ny t
            | LiveTouchAction.up ↦ end_touch fl env e.logical_nx e.logical_ny e.at_ms t
          ])) [
            | LiveTouchAction.down ↦ c.begin env e.logical_nx e.logical_ny e.at_ms t p
            | LiveTouchAction.move ↦ c.move env e.logical_nx e.logical_ny t p
            | LiveTouchAction.up ↦ c.end env e.logical_nx e.logical_ny e.at_ms t p
          ]

    take_live-touch :
        (env : Env) (q : List (LiveTouchEvent fl.F)) (g : Gpio fl.F)
        → P g.touch
        → P (take_live fl env q g).touch
    unfolding take_live
    take_live-touch env [] g p = p
    take_live-touch env (e ∷ q) g p = apply_live-touch env (next_live fl e q).0 g.touch p

    process_live-touch :
        (env : Env) (g : Gpio fl.F) → P g.touch → P (process_live_touch_event fl env g).touch
    unfolding process_live_touch_event
    process_live-touch env g p = elim (Bool-cases (g.touch_frame == g.frame)) [
      | inl done ↦ rw done p
      | inr open' ↦ rw open' (take_live-touch env g.live_touch g p)
    ]

    handle_event-touch :
        (env : Env) (e : Event fl.F) (g : Gpio fl.F) → P g.touch → P (handle_event fl env e g).touch
    unfolding handle_event handle_user handle_key_down handle_key_up push_live press_synthetic
        apply_button_up request_simulator_sleep
    handle_event-touch env (Event.mouse_down real left x y) g p =
        ground (arith, c.begin env x y env.ticks g.touch p)
    handle_event-touch env (Event.mouse_motion real x y) g p =
        ground (arith, c.move env x y g.touch p)
    handle_event-touch env (Event.mouse_up real left x y) g p =
        ground (arith, c.end env x y env.ticks g.touch p)
    handle_event-touch env _ g p = ground arith

    poll-touch : (es : List (Env × Event fl.F)) (g : Gpio fl.F) → P g.touch → P (poll fl es g).touch
    unfolding poll
    poll-touch [] g p = p
    poll-touch ((env, e) ∷ es) g p =
        poll-touch es (handle_event fl env e g) (handle_event-touch env e g p)

    update_input-touch :
        (env : Env) (es : List (Env × Event fl.F)) (g : Gpio fl.F)
        → P g.touch
        → P (update_input fl env es g).touch
    unfolding update_input after_poll process_synthetic_events
    update_input-touch env es g p =
        let g₁ = process_live_touch_event fl env (poll fl es g) in
        c.hold env (run_script fl env g₁.script g₁).1.touch (
          run_script-touch env g₁.script g₁
            (process_live-touch env (poll fl es g) (poll-touch es g p)))

    deliver_releases-touch :
        (n : ℕ) (g : Gpio fl.F) (b : Bool) → (deliver_releases n (g, b)).0.touch ≡ g.touch
    unfolding deliver_releases deliver_release apply_button_up
    deliver_releases-touch ℕ.zero g b = refl
    deliver_releases-touch (ℕ.suc n) g b = ground (arith, deliver_releases-touch n g b)

    begin_frame-touch : (env : Env) (g : Gpio fl.F) → P g.touch → P (begin_frame env g).touch
    unfolding begin_frame tick clear_frame_edges
    begin_frame-touch env g p =
        rw (deliver_releases-touch num_buttons (clear_frame_edges g) false) (c.clear g.touch p)

    Step-touch : {g h : Gpio fl.F} → Step g h → P g.touch → P h.touch
    Step-touch {g} (frame env) p = begin_frame-touch env g p
    Step-touch {g} (input env es) p = update_input-touch env es g p
    Step-touch {g} suppress p = c.suppress g.touch p

    -- What every touch operation keeps holds in every state that is reached.
    pub Reach-touch : {g h : Gpio fl.F} → P g.touch → Reach g h → P h.touch
    Reach-touch p here = p
    Reach-touch p (next r s) = Step-touch s (Reach-touch p r)
