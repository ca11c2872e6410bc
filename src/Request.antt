-- ===== src/Request.antt =====
-- src/request.rs: a request, its parser, chunked bodies and cookies.
pub mod Chunked
pub mod Message
