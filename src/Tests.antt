-- ===== src/Tests.antt =====
-- Runs of the definitions on concrete inputs, and instances of the theorems.
mod Board
mod Buttons
mod Card
mod Codec
mod Escapes
mod Fixtures
mod Handshake
mod Http
mod Input
mod Screen
mod Script
mod Shims
mod Strip
mod Site
mod Socket
