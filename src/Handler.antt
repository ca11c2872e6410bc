-- ===== src/Handler.antt =====
-- src/handler.rs: routing, files, uploads and sessions.
pub mod Route
pub mod World
pub mod Files
pub mod Listing
pub mod Users
pub mod Build
pub mod Helper
