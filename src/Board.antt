-- ===== src/Board.antt =====
-- src/BoardConfig.h, and the part of src/HalGPIO.cpp that asks which board is active. The macros
-- that select a device and a display controller at compile time are the two fields of a `Build`.
pub mod Laws
use crosspoint_simulator_ios.Base.{ℕ, Bool, true, false, ◌||◌, not}

pub data Board : Type 0 where
  xteink_x4 xteink_x3 xteink_x3_uc8279 xteink_x4_pro xteink_x4_classic sticky paper_mono : Board

pub data DisplayController : Type 0 where
  ssd1677 uc8253 ed2208 lgfx_epd it8951 uc8279 uc8179 uc8279c : DisplayController

pub data TouchController : Type 0 where
  none chsc6x gt911 ft5x06 ft6336u gslx680 : TouchController

pub record ViewableInsets : Type 0 where
  pub top : ℕ
  pub right : ℕ
  pub bottom : ℕ
  pub left : ℕ

-- `BoardProfile`, less the fields that every profile leaves at their defaults.
pub record BoardProfile : Type 0 where
  pub board : Board
  pub display_controller : DisplayController
  pub display_controller_variant : ℕ
  pub input_up : ℕ
  pub input_down : ℕ
  pub viewable_insets : ViewableInsets
  pub display_width : ℕ
  pub display_height : ℕ
  pub touch : TouchController

-- At most one `SIMULATOR_DEVICE_*` macro; `x4` stands for none of them.
pub data Device : Type 0 where
  x4 x3 x4_pro x4_classic sticky paper_mono : Device

-- At most one `SIMULATOR_DISPLAY_*` macro.
pub data Override : Type 0 where
  no_override uc8179 uc8279 : Override

pub record Build : Type 0 where
  pub device : Device
  pub display : Override

-- The `#error` lines that relate the device to the controller.
unfoldable pub accepted : Build → Bool
accepted b = go b.device b.display
  where
    go : Device → Override → Bool
    go Device.x3 Override.uc8179 = false
    go Device.sticky Override.uc8179 = false
    go Device.sticky Override.uc8279 = false
    go Device.paper_mono Override.uc8179 = false
    go Device.paper_mono Override.uc8279 = false
    go _ _ = true

x4_display_controller : Override → DisplayController
x4_display_controller Override.uc8179 = DisplayController.uc8179
x4_display_controller Override.uc8279 = DisplayController.uc8279
x4_display_controller Override.no_override = DisplayController.ssd1677

x4_display_controller_variant : Override → ℕ
x4_display_controller_variant Override.uc8179 = 0x01
x4_display_controller_variant Override.uc8279 = 0x68
x4_display_controller_variant Override.no_override = 0

abbrev default_insets : ViewableInsets
default_insets = record { top = 9; right = 3; bottom = 3; left = 3 }

abbrev wide_insets : ViewableInsets
wide_insets = record { top = 9; right = 7; bottom = 3; left = 7 }

-- The profile constants, and the assignment that `selectDevice` makes.
unfoldable pub select_device : Override → Board → BoardProfile
unfolding x4_display_controller x4_display_controller_variant
select_device o Board.xteink_x4 = record {
  board = Board.xteink_x4;
  display_controller = x4_display_controller o;
  display_controller_variant = x4_display_controller_variant o;
  input_up = 4;
  input_down = 5;
  viewable_insets = default_insets;
  display_width = 800;
  display_height = 480;
  touch = TouchController.none;
}
select_device o Board.xteink_x3 = record {
  board = Board.xteink_x3;
  display_controller = DisplayController.uc8253;
  display_controller_variant = 0;
  input_up = 4;
  input_down = 5;
  viewable_insets = default_insets;
  display_width = 800;
  display_height = 480;
  touch = TouchController.none;
}
select_device o Board.xteink_x3_uc8279 = record {
  board = Board.xteink_x3_uc8279;
  display_controller = DisplayController.uc8279;
  display_controller_variant = 0;
  input_up = 4;
  input_down = 5;
  viewable_insets = default_insets;
  display_width = 800;
  display_height = 480;
  touch = TouchController.none;
}
select_device o Board.xteink_x4_pro = record {
  board = Board.xteink_x4_pro;
  display_controller = x4_display_controller o;
  display_controller_variant = x4_display_controller_variant o;
  input_up = 0;
  input_down = 7;
  viewable_insets = default_insets;
  display_width = 800;
  display_height = 480;
  touch = TouchController.gt911;
}
select_device o Board.xteink_x4_classic = record {
  board = Board.xteink_x4_classic;
  display_controller = x4_display_controller o;
  display_controller_variant = x4_display_controller_variant o;
  input_up = 0;
  input_down = 7;
  viewable_insets = wide_insets;
  display_width = 800;
  display_height = 480;
  touch = TouchController.none;
}
select_device o Board.sticky = record {
  board = Board.sticky;
  display_controller = DisplayController.ssd1677;
  display_controller_variant = 0;
  input_up = 5;
  input_down = 6;
  viewable_insets = default_insets;
  display_width = 800;
  display_height = 480;
  touch = TouchController.gt911;
}
select_device o Board.paper_mono = record {
  board = Board.paper_mono;
  display_controller = DisplayController.ssd1677;
  display_controller_variant = 0;
  input_up = 0;
  input_down = 7;
  viewable_insets = wide_insets;
  display_width = 800;
  display_height = 480;
  touch = TouchController.ft5x06;
}

-- The initialiser of `ACTIVE`.
unfoldable pub initial_board : Build → Board
initial_board b = go b.device b.display
  where
    go : Device → Override → Board
    go Device.paper_mono _ = Board.paper_mono
    go Device.sticky _ = Board.sticky
    go Device.x4_pro _ = Board.xteink_x4_pro
    go Device.x4_classic _ = Board.xteink_x4_classic
    go Device.x3 Override.uc8279 = Board.xteink_x3_uc8279
    go Device.x3 _ = Board.xteink_x3
    go Device.x4 _ = Board.xteink_x4

unfoldable pub is_x4_pro : BoardProfile → Bool
is_x4_pro p = elim p.board [ Board.xteink_x4_pro ↦ true | _ ↦ false ]

unfoldable pub is_paper_mono : BoardProfile → Bool
is_paper_mono p = elim p.board [ Board.paper_mono ↦ true | _ ↦ false ]

unfoldable pub has_touch : BoardProfile → Bool
has_touch p = elim p.touch [ TouchController.none ↦ false | _ ↦ true ]

unfoldable pub has_home_key : BoardProfile → Bool
unfolding is_x4_pro
has_home_key p = is_x4_pro p

unfoldable pub has_pwm_frontlight : BoardProfile → Bool
unfolding is_x4_pro is_paper_mono
has_pwm_frontlight p = is_x4_pro p || is_paper_mono p

-- `HalGPIO::DeviceType`
pub data DeviceType : Type 0 where
  x4 x3 : DeviceType

-- `HalGPIO::begin`: the device type, and the board that it selects.
unfoldable pub begin : Build → DeviceType × Board
begin b = go b.device b.display
  where
    go : Device → Override → DeviceType × Board
    go Device.paper_mono _ = (DeviceType.x4, Board.paper_mono)
    go Device.sticky _ = (DeviceType.x4, Board.sticky)
    go Device.x4_pro _ = (DeviceType.x4, Board.xteink_x4_pro)
    go Device.x4_classic _ = (DeviceType.x4, Board.xteink_x4_classic)
    go Device.x3 Override.uc8279 = (DeviceType.x3, Board.xteink_x3_uc8279)
    go Device.x3 _ = (DeviceType.x3, Board.xteink_x3)
    go Device.x4 _ = (DeviceType.x4, Board.xteink_x4)

unfoldable pub is_xteink_device : BoardProfile → Bool
is_xteink_device p = elim p.board [
  | Board.xteink_x3 ↦ true
  | Board.xteink_x3_uc8279 ↦ true
  | Board.xteink_x4 ↦ true
  | _ ↦ false
]

unfoldable pub has_edge_side_buttons : BoardProfile → Bool
has_edge_side_buttons p = elim p.board [
  | Board.xteink_x3 ↦ true
  | Board.xteink_x3_uc8279 ↦ true
  | Board.xteink_x4_pro ↦ true
  | Board.xteink_x4_classic ↦ true
  | _ ↦ false
]
