-- ===== src/Gpio/LiveQueue.antt =====
-- `processLiveTouchEvent` of src/HalGPIO.cpp: what it takes from the queue, and how often.
use crosspoint_simulator_ios.Base.{◌≡◌, ◌≢◌, refl, List, [], ◌∷◌, ◌++◌, All}
use crosspoint_simulator_ios.Gpio.Floats.{FloatOps}
use crosspoint_simulator_ios.Gpio.State.{Env, Gpio, LiveTouchEvent, LiveTouchAction}
use crosspoint_simulator_ios.Gpio.Script.{apply_live, take_live}

module _ (fl : FloatOps) where
  abbrev pub IsMove : LiveTouchEvent fl.F → Type 0
  IsMove e = e.action ≡ LiveTouchAction.move

  -- The queue does not begin with a move.
  abbrev pub NoMove : List (LiveTouchEvent fl.F) → Type 0
  NoMove [] = Unit
  NoMove (e ∷ q) = e.action ≢ LiveTouchAction.move

  -- What an update makes of the queue: a run of moves at its front, and what is behind it; or its first
  -- event, which is no move.
  pub data Front
      : List (LiveTouchEvent fl.F) → LiveTouchEvent fl.F → List (LiveTouchEvent fl.F) → Type 0 where
    run :
        (moves : List (LiveTouchEvent fl.F)) (newest : LiveTouchEvent fl.F)
        (rest : List (LiveTouchEvent fl.F))
        → All IsMove moves
        → IsMove newest
        → NoMove rest
        → Front (moves ++ (newest ∷ rest)) newest rest
    single :
        (e : LiveTouchEvent fl.F) (rest : List (LiveTouchEvent fl.F))
        → NoMove (e ∷ rest)
        → Front (e ∷ rest) e rest

  -- The state when an event has been applied.
  abbrev pub applied :
      Env → Gpio fl.F → LiveTouchEvent fl.F × List (LiveTouchEvent fl.F) → Gpio fl.F
  applied env g r = record g {
    touch = apply_live fl env r.0 g.touch;
    live_touch = r.1;
    touch_frame = g.frame;
  }

  take_live-frame :
      (env : Env) (e : LiveTouchEvent fl.F) (q : List (LiveTouchEvent fl.F)) (g : Gpio fl.F)
      → let h = take_live fl env (e ∷ q) g in (h.touch_frame ≡ g.frame) × (h.frame ≡ g.frame)
  unfolding take_live
  take_live-frame env e q g = (refl, refl)
