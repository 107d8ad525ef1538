-- ===== src/Tests/Journaling.antt =====
-- The running hasher on a first call of 3 bytes and a second of 70.
use go_zkvm.Base.{◌≡◌, ◌%◌, arith, length, [], ◌∷◌, ◌++◌, some, replicate}
use go_zkvm.Sha.Hash.{sha256_init_state, sha_buffer}
use go_zkvm.Sha.Hash.OneShot.{fips_hash}
use go_zkvm.Sha.Tagged.Preimage.{tagged_digest}
use go_zkvm.Journal.Rounds.{full_blocks_terminates}
use go_zkvm.Journal.{full_blocks, Globals, Slice, start, zero_digest, ensure_initialized}
use go_zkvm.Journal.{
  update_proper_hasher, journal_digest, finalize_proper_hasher, add_assumption_digest,
}
use go_zkvm.Journal.State.{Represents, update-Represents, start-Represents}
use go_zkvm.Journal.Finalize.{
  journal_digest-sha_buffer, finalize-Represents, add_assumption_digest-eq,
}
use go_zkvm.Journal.Finalize.{cons_assumption}
use go_zkvm.Tests.Machine.{toy, toy-IsLawful}

abbrev first : Slice
first = record { addr = 1000; bytes = 1 ∷ 2 ∷ 3 ∷ [] }

-- An address that is not aligned after the 61 bytes that complete the block.
abbrev second : Slice
second = record { addr = 2001; bytes = replicate 140 9 }

abbrev after_first : Globals
after_first = update_proper_hasher toy start first

abbrev after_second : Globals
after_second = update_proper_hasher toy after_first second

after_first-Represents : Represents toy after_first (1 ∷ 2 ∷ 3 ∷ []) zero_digest
after_first-Represents = update-Represents toy start [] zero_digest first (start-Represents toy)

update-Represents_example :
    Represents toy
      (update_proper_hasher toy after_first second)
      ((1 ∷ 2 ∷ 3 ∷ []) ++ replicate 140 9)
      zero_digest
update-Represents_example =
    update-Represents toy after_first (1 ∷ 2 ∷ 3 ∷ []) zero_digest second after_first-Represents

after_second-Represents :
    Represents toy after_second ((1 ∷ 2 ∷ 3 ∷ []) ++ replicate 140 9) zero_digest
after_second-Represents =
    update-Represents toy after_first (1 ∷ 2 ∷ 3 ∷ []) zero_digest second after_first-Represents

journal_digest-sha_buffer_example :
    journal_digest toy (ensure_initialized after_second).hasher
    ≡ sha_buffer toy sha256_init_state ((1 ∷ 2 ∷ 3 ∷ []) ++ replicate 140 9)
journal_digest-sha_buffer_example =
    journal_digest-sha_buffer toy toy-IsLawful (ensure_initialized after_second).hasher
      ((1 ∷ 2 ∷ 3 ∷ []) ++ replicate 140 9) after_second-Represents.absorbed (omega arith)

finalize-Represents_example :
    finalize_proper_hasher toy after_second
    ≡ some (
      tagged_digest toy "risc0.Output"
          (fips_hash toy sha256_init_state ((1 ∷ 2 ∷ 3 ∷ []) ++ replicate 140 9) ∷ zero_digest ∷ [])
          [],
      ensure_initialized after_second,
    )
finalize-Represents_example =
    finalize-Represents toy toy-IsLawful after_second ((1 ∷ 2 ∷ 3 ∷ []) ++ replicate 140 9)
      zero_digest after_second-Represents (omega arith) (omega arith)

add_assumption_digest-eq_example :
    add_assumption_digest toy sha256_init_state zero_digest start
    ≡ some (record start {
      assumptions = cons_assumption toy sha256_init_state zero_digest zero_digest;
    })
add_assumption_digest-eq_example =
    add_assumption_digest-eq toy toy-IsLawful start sha256_init_state zero_digest (omega arith)
      (omega arith) (omega arith)

full_blocks_terminates_example :
    (full_blocks toy 5 start.hasher second
      ≡ full_blocks toy (length second.bytes) start.hasher second)
    × (length (full_blocks toy 5 start.hasher second).1.bytes ≡ length second.bytes % 64)
full_blocks_terminates_example = full_blocks_terminates toy 5 start.hasher second (ground arith)
