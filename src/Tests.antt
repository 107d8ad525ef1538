-- ===== src/Tests.antt =====
-- Runs of the model on concrete inputs.
mod Machine
mod Disk
mod Hashing
mod Journaling
mod Guests
mod Commands
mod Loading
mod Lacking
mod Coding
mod Prover
mod Lawful
mod Proving
mod Sessions
mod Replies
mod Json
mod Wire
mod Crate
mod Together
mod Fips
