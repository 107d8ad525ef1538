-- ===== src/Prover.antt =====
-- host-core and host-ffi: the Rust crates behind the FFI boundary.
pub mod Outcome
pub mod Core
pub mod Boundary
pub mod Crate
pub mod Handlers
pub mod Serves
pub mod Responses
pub mod Instance
pub mod Receipts
pub mod Together
