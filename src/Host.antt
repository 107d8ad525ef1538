-- ===== src/Host.antt =====
-- The package host: the client's construction and the loading of the Rust library.
pub mod Loader
pub mod Client
pub mod Messages
pub mod Failure
pub mod Ffi
pub mod Options
pub mod Calls
pub mod Library
pub mod Files
pub mod Stub
pub mod Process
