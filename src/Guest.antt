-- ===== src/Guest.antt =====
-- zkvm/zkvm.go and zkvm/verify.go: what a guest program calls.
pub mod Platform
pub mod Monad
pub mod Api
pub mod Compose
pub mod Session
