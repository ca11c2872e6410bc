-- ===== src/Std.antt =====
-- The parts of Rust's standard library that the server calls on text and maps.
-- A `Bytes` is a `[u8]` or `Vec<u8>`; a `Text` is a `str` or `String`, as its characters.
pub mod Text
pub mod Utf8
pub mod Number
pub mod Map
pub mod Keys
pub mod Slice
