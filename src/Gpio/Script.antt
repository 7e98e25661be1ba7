-- ===== src/Gpio/Script.antt =====
-- The scheduled input events of src/HalGPIO.cpp, and the queue of live touch events.
use crosspoint_simulator_ios.Base.{Bool, true, not, ◌||◌, if◌then◌else◌, ltb, ◌==◌, List, [], ◌∷◌}
use crosspoint_simulator_ios.Gpio.Floats.{FloatOps}
use crosspoint_simulator_ios.Gpio.State.{
  Env, Touch, LiveTouchAction, LiveTouchEvent, SyntheticAction, SyntheticEvent, Gpio, key_down,
  key_up, touch_down, touch_move, touch_up, home_down, home_up, sleep, quit,
}
use crosspoint_simulator_ios.Gpio.Touch.{begin_touch, move_touch, end_touch}
use crosspoint_simulator_ios.Gpio.Keys.{
  begin_home_key, end_home_key, press_synthetic, apply_button_up, request_simulator_sleep,
}

module _ (fl : FloatOps) where
  -- The switch of `processSyntheticEvents`.
  unfoldable pub perform : Env → SyntheticAction fl.F → Gpio fl.F → Gpio fl.F
  perform env (key_down i) g = press_synthetic env i g
  perform env (key_up i) g = apply_button_up i g
  perform env (touch_down x y) g = record g { touch = begin_touch fl env x y env.ticks g.touch }
  perform env (touch_move x y) g = record g { touch = move_touch fl env x y g.touch }
  perform env (touch_up x y) g = record g { touch = end_touch fl env x y env.ticks g.touch }
  perform env home_down g = record g { home = begin_home_key env g.home }
  perform env home_up g = record g { home = end_home_key env g.home }
  perform env sleep g = request_simulator_sleep env g
  perform env quit g = record g { quit_requested = true }

  abbrev pub due : Env → SyntheticEvent fl.F → Bool
  due env e = not (e.handled || ltb env.millis e.at_ms)

  -- The loop of `processSyntheticEvents`: the events with their flags, and the state.
  unfoldable pub run_script :
      Env → List (SyntheticEvent fl.F) → Gpio fl.F → List (SyntheticEvent fl.F) × Gpio fl.F
  run_script env [] g = ([], g)
  run_script env (e ∷ es) g =
      let (es', g') = run_script env es (if due env e then perform env e.action g else g) in
      ((if due env e then record e { handled = true } else e) ∷ es', g')

  -- `processSyntheticEvents`, once the script is loaded.
  unfoldable pub process_synthetic_events : Env → Gpio fl.F → Gpio fl.F
  process_synthetic_events env g =
      let (script', g') = run_script env g.script g in record g' { script = script' }

  -- The inner loop of `processLiveTouchEvent`: the newest of a run of moves, and the rest.
  unfoldable pub coalesce :
      LiveTouchEvent fl.F
      → List (LiveTouchEvent fl.F)
      → LiveTouchEvent fl.F × List (LiveTouchEvent fl.F)
  coalesce e [] = (e, [])
  coalesce e (n ∷ q) = elim n.action [ LiveTouchAction.move ↦ coalesce n q | _ ↦ (e, n ∷ q) ]

  unfoldable pub next_live :
      LiveTouchEvent fl.F
      → List (LiveTouchEvent fl.F)
      → LiveTouchEvent fl.F × List (LiveTouchEvent fl.F)
  next_live e q = elim e.action [ LiveTouchAction.move ↦ coalesce e q | _ ↦ (e, q) ]

  -- The switch of `processLiveTouchEvent`.
  unfoldable pub apply_live : Env → LiveTouchEvent fl.F → Touch fl.F → Touch fl.F
  apply_live env e t = elim e.action [
    | LiveTouchAction.down ↦ begin_touch fl env e.logical_nx e.logical_ny e.at_ms t
    | LiveTouchAction.move ↦ move_touch fl env e.logical_nx e.logical_ny t
    | LiveTouchAction.up ↦ end_touch fl env e.logical_nx e.logical_ny e.at_ms t
  ]

  -- The part of `processLiveTouchEvent` below its guard, on the queue.
  unfoldable pub take_live : Env → List (LiveTouchEvent fl.F) → Gpio fl.F → Gpio fl.F
  take_live env [] g = g
  take_live env (e ∷ q) g =
      let (newest, rest) = next_live e q in
      record g { touch = apply_live env newest g.touch; live_touch = rest; touch_frame = g.frame }

  unfoldable pub process_live_touch_event : Env → Gpio fl.F → Gpio fl.F
  process_live_touch_event env g =
      if g.touch_frame == g.frame then g else take_live env g.live_touch g
