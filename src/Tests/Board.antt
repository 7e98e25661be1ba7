-- ===== src/Tests/Board.antt =====
-- Instances of the theorems on boards and on the front light.
use crosspoint_simulator_ios.Base.{◌≡◌, refl, true, ◌≤◌}
use crosspoint_simulator_ios.Board.{
  Board, BoardProfile, Device, Override, Build, accepted, select_device,
}
use crosspoint_simulator_ios.Frontlight.{Frontlight, initial, set_brightness, set_on, tint}
use crosspoint_simulator_ios.Frontlight.Bounds.{Step, Reach, InRange, reached-InRange}

abbrev x3_uc8279 : Build
x3_uc8279 = record { device = Device.x3; display = Override.uc8279 }

x3_uc8279-accepted : accepted x3_uc8279 ≡ true
unfolding accepted
x3_uc8279-accepted = refl

abbrev x4_pro : BoardProfile
x4_pro = select_device Override.no_override Board.xteink_x4_pro

abbrev lit_up : Frontlight
lit_up = set_on x4_pro true (set_brightness 250 initial)

reached-InRange_example :
    InRange x4_pro lit_up
    × ((tint lit_up).level ≤ 255)
    × ((tint lit_up).green ≤ (tint lit_up).level)
    × ((tint lit_up).blue ≤ (tint lit_up).green)
reached-InRange_example =
    reached-InRange x4_pro (Reach.next (Reach.next Reach.here (Step.dim 250)) (Step.switch true))
