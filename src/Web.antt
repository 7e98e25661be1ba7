-- ===== src/Web.antt =====
-- src/CrossPointWebServer.cpp, the file transfer server.
pub mod Decode
pub mod Path
pub mod PathLaws
pub mod Request
pub mod Multipart
pub mod Storage
pub mod Handlers
pub mod Dispatch
pub mod Safety
pub mod Guard
pub mod Upload
pub mod Protection
pub mod Encoding
pub mod Normal
pub mod Escape
pub mod Quoting
pub mod Parse
pub mod Wire
