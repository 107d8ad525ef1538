-- ===== src/Sha/Hash.antt =====
-- zkvm/sha256_proper.go: `sha256InitStateBE`, `shaBuffer` and `SumSHA256`.
pub mod Blocks
pub mod OneShot
use go_zkvm.Base.{ℕ, zero, suc, ◌+◌, ◌*◌, ◌/◌, ◌%◌, ◌^◌, List, [], ◌∷◌, length, take, drop}
use go_zkvm.Base.{replicate, Option, some, ◌>>=◌}
use go_zkvm.Sha.Accelerator.{Accelerator}
use go_zkvm.Sha.Padding.{pad_buffer, block_size}
use go_zkvm.Sha.Words.{digest_words_to_bytes}

abbrev pub sha256_init_state : List ℕ
sha256_init_state =
    1743128938 ∷ 2242799547 ∷ 1928556092 ∷ 989155237 ∷ 2136084049 ∷ 2355627419 ∷ 2883158815
    ∷ 432922715 ∷ []

-- The loop of `shaBuffer` with `n` rounds left: block `i` is copied out of the buffer and
-- compressed. `out` is what the loop leaves in `outState`.
sha_loop : Accelerator → ℕ → ℕ → List ℕ → List ℕ → List ℕ → List ℕ
sha_loop acc zero i in_state out pad = out
sha_loop acc (suc n) i in_state out pad =
    let block = take block_size (drop (i * block_size) pad) in
    let out' = acc.compress in_state (take 32 block) (drop 32 block) in
    sha_loop acc n (i + 1) out' out' pad

pub sha_buffer : Accelerator → List ℕ → List ℕ → Option (List ℕ)
sha_buffer acc initial_state bytes = do
  pad ← pad_buffer bytes (length bytes * 8 % 2 ^ 32)
  some (sha_loop acc (length pad / 4 / 16) 0 initial_state (replicate 8 0) pad)

pub sum_sha256 : Accelerator → List ℕ → Option (List ℕ)
sum_sha256 acc bytes = do
  words ← sha_buffer acc sha256_init_state bytes
  some (digest_words_to_bytes words)
