-- ===== src/Gpio.antt =====
-- src/HalGPIO.cpp and src/HalGPIO.h: the input state that the firmware reads, in the build for iOS
-- (`SIMULATOR_IOS`), where the on-screen key strip is off and takes no contact.
pub mod Floats
pub mod State
pub mod Touch
pub mod Keys
pub mod Script
pub mod Events
pub mod Query
pub mod Reach
pub mod Gestures
pub mod Contact
pub mod LiveQueue
pub mod HomePress
pub mod HeldTime
pub mod Latch
pub mod Release
pub mod Schedule
pub mod Sleep
pub mod Balance
pub mod Wake
