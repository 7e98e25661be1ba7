-- ===== src/Board/Laws.antt =====
-- What the board tables of src/BoardConfig.h promise to the rest of the simulator.
use crosspoint_simulator_ios.Base.{true, false, ◌&&◌, ◌||◌, not, ◌≡◌, arith}
use crosspoint_simulator_ios.Board.{
  Board, Override, Build, accepted, select_device, initial_board, begin, has_touch, has_home_key,
  has_pwm_frontlight, is_xteink_device,
}

-- For every build that the `#error` lines accept, `HalGPIO::begin` selects the profile that
-- `ACTIVE` was initialised with.
pub begin-initial_board : (b : Build) → accepted b ≡ true → (begin b).1 ≡ initial_board b
unfolding begin initial_board accepted
begin-initial_board b h = ground arith

-- `selectDevice` installs the profile of the board that it is given.
pub board-select_device : (o : Override) (b : Board) → (select_device o b).board ≡ b
unfolding select_device
board-select_device o b = ground arith

-- On every board a home key comes with a front light, and a front light with a touch panel; no touch
-- board is one that `isXteinkDevice` accepts.
pub capabilities_nested :
    (o : Override) (b : Board)
    → let p = select_device o b in
      ((not (has_home_key p) || has_pwm_frontlight p) ≡ true)
      × ((not (has_pwm_frontlight p) || has_touch p) ≡ true)
      × ((has_touch p && is_xteink_device p) ≡ false)
unfolding select_device has_home_key has_pwm_frontlight has_touch is_xteink_device
capabilities_nested o b = ground arith
