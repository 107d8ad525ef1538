-- ===== src/Sha/Accelerator.antt =====
-- The SHA syscalls of libzkvm_platform.a, which the Go code only calls.
-- A hash state is a list of 8 words, a block two halves of 32 bytes.
use go_zkvm.Base.{ℕ, zero, suc, ◌*◌, ◌^◌, ◌<◌, ◌≡◌, List, length, take, drop, All}

pub record Accelerator : Type 0 where
  -- `sys_sha_compress(out, in_state, block1, block2)`
  pub compress : List ℕ → List ℕ → List ℕ → List ℕ
  -- `sys_sha_buffer(out, in_state, buf, count)`
  pub buffer : List ℕ → List ℕ → ℕ → List ℕ

-- `n` compressions over the leading blocks of `bytes`, one after the other.
abbrev pub compress_blocks : Accelerator → ℕ → List ℕ → List ℕ → List ℕ
compress_blocks acc zero state bytes = state
compress_blocks acc (suc n) state bytes =
    compress_blocks acc n (acc.compress state (take 32 bytes) (take 32 (drop 32 bytes)))
      (drop 64 bytes)

abbrev pub IsDigest : List ℕ → Type 0
IsDigest words = (length words ≡ 8) × All (λ w. w < 2 ^ 32) words

-- What the code relies on: `sys_sha_buffer` compresses `count` blocks in order, and a state is
-- eight 32-bit words.
pub record IsLawful (acc : Accelerator) : Type 0 where
  pub buffer_lem :
      (state bytes : List ℕ) (count : ℕ)
      → length bytes ≡ 64 * count
      → acc.buffer state bytes count ≡ compress_blocks acc count state bytes
  pub compress-IsDigest :
      (state front back : List ℕ) → IsDigest state → IsDigest (acc.compress state front back)
