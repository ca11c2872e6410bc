-- ===== src/Cgi.antt =====
-- src/cgi.rs: the CGI runner and what it reads of a script's output.
pub mod Output
pub mod Run
