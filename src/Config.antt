-- ===== src/Config.antt =====
-- src/config: the configuration, its tokenizer, its parser and the checks at start-up.
pub mod Data
pub mod Size
pub mod Tokenizer
pub mod Parser
pub mod Load
pub mod Written
