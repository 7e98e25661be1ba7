-- ===== src/Display.antt =====
-- src/HalDisplay.cpp: the frame buffer and who owns it, drawing into it, and the grayscale preview.
-- The window, the texture and the screenshots are calls of SDL and are not modelled.
pub mod State
pub mod Draw
pub mod Grayscale
