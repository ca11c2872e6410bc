-- ===== src/Config/Parser.antt =====
-- src/config/parser.rs: the recursive descent from tokens to a configuration.
pub mod State
pub mod Location
pub mod Server
pub mod Ends
