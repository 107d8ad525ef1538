-- ===== src/Sha.antt =====
-- zkvm/sha256_proper.go, the stateless part: padding, one-shot hashing and tagged structs.
pub mod Accelerator
pub mod Padding
pub mod Words
pub mod Hash
pub mod Tagged
