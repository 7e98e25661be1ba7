-- ===== src/Http.antt =====
-- src/WebServer.cpp, the HTTP server that the firmware's own pages run on.
pub mod Text
pub mod Multipart
pub mod State
pub mod Head
pub mod Receive
pub mod Serve
pub mod Search
pub mod Arrival
pub mod Whole
pub mod Forms
