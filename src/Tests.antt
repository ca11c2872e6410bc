-- ===== src/Tests.antt =====
-- The theorems at concrete inputs, and runs of the definitions on the inputs of the source's tests.
pub mod Samples
pub mod Written
pub mod Requests
pub mod Cookies
pub mod Sessions
pub mod Connections
pub mod Exchanges
pub mod Users
pub mod Files
pub mod Watches
pub mod Responses
pub mod Configs
pub mod Routes
pub mod Loop
pub mod Uploads
pub mod Known
pub mod Deaf
